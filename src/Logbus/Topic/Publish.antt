-- ===== src/Logbus/Topic/Publish.antt =====
-- `publishLog`, `Publish`, `PublishAt` and `SeedAt`: the topic goes on serving the durable log.
use build_system.Prelude.{
  ℕ, zero, suc, ◌+◌, ◌≤◌, ◌<◌, ◌≡◌, ◌∙◌, ap, sym, subst, inl, inr, false, List, [], length, take,
  drop, slice, contains, ltb, length-take, length-drop, drop-slice, take-slice, Bool-cases, arith,
}
use build_system.Logbus.Channel.{log}
use build_system.Logbus.Topic.{Topic, event_size, fan_out, publish_loop}
use build_system.Logbus.Topic.Stream.{Mode, IsDelivering, event_size_bounds, fan_out-IsDelivering}

-- With nobody subscribed the end of the stream is free.
pub IsDelivering-none :
    (m : Mode) (d : List ℕ) (t : Topic) (e e' : ℕ)
    → t.subs ≡ []
    → IsDelivering m d t e
    → IsDelivering m d t e'
IsDelivering-none m d t e e' none h = record {
  flow = λ c.
      let gone : contains c t.subs ≡ false = ap (contains c) none in
      record {
        opened = λ k. (h.flow c).opened k;
        live = λ k. absurd (cc);
        past = (h.flow c).past;
        calm = (h.flow c).calm;
      };
  named = h.named;
}

fan_out-take :
    (m : Mode) (d : List ℕ) (t : Topic) (offset n : ℕ) (chunk : List ℕ)
    → n ≤ length chunk
    → IsDelivering m d t offset
    → offset + length chunk ≤ length d
    → chunk ≡ slice d offset (length chunk)
    → IsDelivering m d (fan_out t (log (take n chunk) (offset + n))) (offset + n)
fan_out-take m d t offset n chunk le h fits same =
    let e : length (take n chunk) ≡ n = omega (arith, length-take n chunk) in
    let piece : take n chunk ≡ slice d offset n =
      ap (take n) same ∙ take-slice n d offset (length chunk) le in
    subst (λ k. IsDelivering m d (fan_out t (log (take n chunk) (offset + k))) (offset + k)) e
      (fan_out-IsDelivering m d t offset (take n chunk) h (omega arith)
        (piece ∙ ap (slice d offset) (sym e)))

drop_rest :
    (d : List ℕ) (offset n : ℕ) (chunk : List ℕ)
    → chunk ≡ slice d offset (length chunk)
    → drop n chunk ≡ slice d (offset + n) (length (drop n chunk))
drop_rest d offset n chunk same =
    ap (drop n) same
    ∙ drop-slice n d offset (length chunk)
    ∙ ap (slice d (offset + n)) (sym (length-drop n chunk))

pub publish_loop-IsDelivering :
    (m : Mode) (d : List ℕ) (fuel limit : ℕ) (t : Topic) (chunk : List ℕ) (offset : ℕ)
    → 0 < limit
    → length chunk ≤ fuel
    → IsDelivering m d t offset
    → offset + length chunk ≤ length d
    → chunk ≡ slice d offset (length chunk)
    → IsDelivering m d (publish_loop fuel limit t chunk offset) (offset + length chunk)
unfolding publish_loop
publish_loop-IsDelivering m d zero limit t chunk offset l enough h fits same =
    let e : offset ≡ offset + length chunk = omega arith in subst (IsDelivering m d t) e h
publish_loop-IsDelivering m d (suc fuel) limit t chunk offset l enough h fits same =
    elim (Bool-cases (ltb 0 (length chunk))) [
      | inr done ↦
          let e : offset ≡ offset + length chunk = ground arith in
          rw done (subst (IsDelivering m d t) e h)
      | inl more ↦ rw more (elim (Bool-cases (ltb 0 (length t.subs))) [
        | inr nobody ↦
            rw nobody (IsDelivering-none m d t offset (offset + length chunk) (ground arith) h)
        | inl somebody ↦
            let n = event_size limit chunk in
            let b = event_size_bounds limit chunk l (ground arith) in
            let e : offset + n + length (drop n chunk) ≡ offset + length chunk =
              omega (arith, length-drop n chunk) in
            rw somebody (
              subst (IsDelivering m d _) e (
                publish_loop-IsDelivering m d fuel limit
                  (fan_out t (log (take n chunk) (offset + n))) (drop n chunk) (offset + n) l
                  (omega (arith, length-drop n chunk))
                  (fan_out-take m d t offset n chunk b.2 h fits same)
                  (omega (arith, length-drop n chunk)) (drop_rest d offset n chunk same)))
      ])
    ]
