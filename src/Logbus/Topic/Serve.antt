-- ===== src/Logbus/Topic/Serve.antt =====
-- The invariant of one topic over its durable log, kept by every method of the bus and every read.
use build_system.Prelude.{
  ℕ, zero, suc, ◌+◌, ◌-◌, ◌≤◌, ◌≡◌, ◌∙◌, ap, ap₂, sym, subst, refl, inl, inr, Bool, true, false,
  List, [], length, take, drop, slice, contains, ltb, leb, ◌&&◌, length-drop, drop-slice,
  Bool-cases, if_rule, arith, if◌then◌else◌,
}
use build_system.Logbus.Channel.{log, Chan, close_chan}
use build_system.Logbus.Topic.{
  Topic, total, max_event, event_size, append_tail, fan_out, publish_loop, publish_log, close_subs,
  publish_at,
}
use build_system.Logbus.Topic.Tail.{
  IsTail, IsBounded, total-append_tail, append_tail-IsBounded, append_tail-IsTail,
}
use build_system.Logbus.Topic.Stream.{Mode, IsFlowing, IsDelivering}
use build_system.Logbus.Topic.Publish.{publish_loop-IsDelivering}

-- The retained bytes are a bounded range of the durable log `d` that ends at the total, every
-- subscriber's channel carries the log up to that total, and a closed topic has no subscriber.
pub record IsServing (m : Mode) (d : List ℕ) (t : Topic) : Type 0 where
  pub tail : IsTail d t
  pub bounded : IsBounded t
  pub delivering : IsDelivering m d t (total t)
  pub quiet : t.closed ≡ true → t.subs ≡ []

-- What `publishLog` leaves alone.
abbrev SameStore : Topic → Topic → Type 0
SameStore t u =
    (t.buf ≡ u.buf) × (t.base ≡ u.base) × (t.capacity ≡ u.capacity) × (t.closed ≡ u.closed)

publish_loop-SameStore :
    (fuel limit : ℕ) (t : Topic) (chunk : List ℕ) (offset : ℕ)
    → SameStore (publish_loop fuel limit t chunk offset) t
unfolding publish_loop fan_out
publish_loop-SameStore zero limit t chunk offset = (refl, refl, refl, refl)
publish_loop-SameStore (suc fuel) limit t chunk offset =
    elim (Bool-cases (ltb 0 (length chunk) && ltb 0 (length t.subs))) [
      | inl more ↦
          let n = event_size limit chunk in
          rw more (
            publish_loop-SameStore fuel limit (fan_out t (log (take n chunk) (offset + n)))
              (drop n chunk) (offset + n))
      | inr done ↦ rw done (refl, refl, refl, refl)
    ]

pub SameStore-IsServing :
    (m : Mode) (d : List ℕ) (v u : Topic)
    → SameStore v u
    → IsTail d u
    → IsBounded u
    → IsDelivering m d v (total u)
    → (v.closed ≡ true → v.subs ≡ [])
    → IsServing m d v
SameStore-IsServing m d v u kept ht hb hd hq =
    let e : total u ≡ total v = omega (arith, kept.1, ap length kept.0) in
    record {
      tail = record {
        within = omega (arith, e, ht.within);
        bytes = kept.0 ∙ ht.bytes ∙ ap₂ (slice d) (sym kept.1) (ap length (sym kept.0));
      };
      bounded = record {
        retained = omega (arith, ap length kept.0, hb.retained);
        stored = omega (arith, ap length kept.0, kept.2, hb.stored);
        capped = omega (arith, kept.2, hb.capped);
      };
      delivering = subst (IsDelivering m d v) e hd;
      quiet = hq;
    }

-- A topic that has just retained the next bytes `news` of the log hands them to its subscribers.
pub extend-IsServing :
    (m : Mode) (d : List ℕ) (t : Topic) (news : List ℕ)
    → IsTail d t
    → IsBounded t
    → IsDelivering m d t (total t)
    → t.closed ≡ false
    → total t + length news ≤ length d
    → news ≡ slice d (total t) (length news)
    → IsServing m d (publish_log (append_tail t news) news (total (append_tail t news)))
unfolding publish_log append_tail
extend-IsServing m d t news ht hb hd live fits same =
    let u = append_tail t news in
    let sums = total-append_tail t news in
    let start : total t ≡ total u - length news = omega (arith, sums) in
    let kept = publish_loop-SameStore (length news) max_event u news (total u - length news) in
    let sent =
      publish_loop-IsDelivering m d (length news) max_event u news (total t) (omega arith)
        (omega arith) (record { flow = hd.flow; named = hd.named }) fits same in
    SameStore-IsServing m d _ u kept (append_tail-IsTail d t news ht fits same)
      (append_tail-IsBounded t news hb)
      (subst (IsDelivering m d _) (sym sums) (
        subst
          (λ k.
            IsDelivering m d (publish_loop (length news) max_event u news k)
              (total t + length news))
          start sent))
      (λ e. absurd (cc (kept.3, live, e)))

pub close-IsFlowing :
    (m : Mode) (d : List ℕ) (ch : Chan) (subscribed : Bool) (e e' : ℕ)
    → IsFlowing m d ch subscribed e
    → IsFlowing m d (if subscribed then close_chan ch else ch) false e'
close-IsFlowing m d ch false e e' h = record {
  opened = λ k. absurd (cc);
  live = λ k. absurd (cc);
  past = h.past;
  calm = h.calm;
}
close-IsFlowing m d ch true e e' h = record {
  opened = λ k. absurd (cc);
  live = λ k. absurd (cc);
  past = h.past;
  calm = ground (arith, h.opened refl, h.calm);
}

pub close_subs-IsDelivering :
    (m : Mode) (d : List ℕ) (t : Topic) (e e' : ℕ)
    → IsDelivering m d t e
    → IsDelivering m d (close_subs t) e'
unfolding close_subs
close_subs-IsDelivering m d t e e' h = record {
  flow = λ c. close-IsFlowing m d (t.chans c) (contains c t.subs) e e' (h.flow c);
  named = λ c k. absurd (cc);
}

-- Committed bytes published at their offset, after a gap, with an overlap or as a retry, keep the
-- invariant; the topic's total becomes the later of the old one and the end of the bytes, unless the
-- topic is closed.
pub publish_at-IsServing :
    (m : Mode) (d : List ℕ) (t : Topic) (start : ℕ) (chunk : List ℕ)
    → IsServing m d t
    → start + length chunk ≤ length d
    → chunk ≡ slice d start (length chunk)
    → IsServing m d (publish_at t start chunk)
unfolding publish_at
publish_at-IsServing m d t start chunk h fits same =
    if_rule (IsServing m d) t.closed _ _ (λ over. h)
      λ live.
        if_rule (IsServing m d) (ltb (total t) start) _ _
          (λ gap.
            let fresh = record (close_subs t) { buf = []; base = start } in
            let e : start + 0 ≡ start = omega arith in
            let cut = close_subs-IsDelivering m d t (total t) (start + 0) h.delivering in
            extend-IsServing m d fresh chunk (record { within = omega (arith, fits); bytes = refl })
              (record {
                retained = omega arith;
                stored = omega arith;
                capped = unfold close_subs in h.bounded.capped;
              })
              (record { flow = cut.flow; named = cut.named }) (unfold close_subs in live)
              (omega (arith, fits)) (same ∙ ap (λ k. slice d k (length chunk)) (sym e)))
          λ joined.
            if_rule (IsServing m d) (leb (length chunk) (total t - start)) _ _ (λ old. h)
              λ more.
                let k = total t - start in
                let e : start + k ≡ total t = ground arith in
                extend-IsServing m d t (drop k chunk) h.tail h.bounded h.delivering live
                  (ground (arith, length-drop k chunk))
                  (ap (drop k) same
                    ∙ drop-slice k d start (length chunk)
                    ∙ ap₂ (slice d) e (sym (length-drop k chunk)))
