-- ===== src/Runner/Sink/Publish.antt =====
-- What the sink tells the log bus: only bytes that are already stored, at their offsets, so that the bus
-- stays in a state where every topic serves its log.
use build_system.Prelude.{
  ℕ, ◌+◌, ◌-◌, ◌≤◌, ◌≡◌, ◌∙◌, ap, sym, subst, refl, inl, Bool, not, ◌&&◌, List, Option, none, some,
  length, take, drop, slice, length-append, drop-slice, take-slice, length-slice, drop-append_past,
  take_all, if_rule, arith,
}
use build_system.Prelude.Int.{pos}
use build_system.Logbus.{topic_length}
use build_system.Logbus.Topic.{max_retained}
use build_system.Logbus.Topic.Stream.{ordered}
use build_system.Logbus.Reach.{Reach, next, perform, publishes_at, seeds_at, At}
use build_system.Db.BuildLog.{BuildLog, append_build_log, build_log_slice}
use build_system.Db.BuildLog.Append.{IsStored, contents, AppendsTo, append_build_log-AppendsTo}
use build_system.Db.BuildLog.Slice.{build_log_slice_lem}
use build_system.Runner.Sink.{Sink, Weather, is_empty, lacks, seeded, committed, flush_db}

-- The stored log is a prefix of the whole log.
abbrev pub IsPrefix : List ℕ → List ℕ → Type 0
IsPrefix l whole = (length l ≤ length whole) × (l ≡ slice whole 0 (length l))

range :
    (l whole : List ℕ) (start n : ℕ)
    → IsPrefix l whole
    → start + n ≤ length l
    → slice l start n ≡ slice whole start n
range l whole start n p h =
    ap (λ x. slice x start n) p.1
    ∙ ap (take n) (drop-slice start whole 0 (length l))
    ∙ take-slice n whole (0 + start) (length l - start) (omega (arith, h))
    ∙ (let same : 0 + start ≡ start = omega arith in ap (λ k. slice whole k n) same)

slice-At :
    (l whole : List ℕ) (start n : ℕ)
    → IsPrefix l whole
    → start + n ≤ length l
    → At whole (pos start) (slice l start n)
slice-At l whole start n p h =
    let size : length (slice l start n) ≡ n = length-slice l start n h in
    (omega (arith, size, h, p.0), range l whole start n p h ∙ ap (slice whole start) (sym size))

seeded-Reach :
    (d : ℕ → List ℕ) (w : Weather) (s : Sink) (l : BuildLog) (start : ℕ)
    → Reach ordered d s.bus
    → IsStored l
    → IsPrefix (contents l) (d s.build)
    → start ≤ length (contents l)
    → Reach ordered d (seeded w s l start)
unfolding seeded perform
seeded-Reach d w s l start h k p le =
    let from = start - max_retained in
    if_rule (Reach ordered d) (lacks (topic_length s.bus s.build) start && not w.unreadable) _ _
      (λ e. next h (seeds_at s.build (pos from) (build_log_slice l from (start - from))) (
        subst (At (d s.build) (pos from)) (sym (build_log_slice_lem l from (start - from) k))
            (slice-At (contents l) (d s.build) from (start - from) p (omega (arith, le))),
        inl refl,
      ))
      λ e. h

committed-Reach :
    (d : ℕ → List ℕ) (w : Weather) (s : Sink) (o : Option (BuildLog × ℕ))
    → Reach ordered d s.bus
    → AppendsTo s.log s.db_buf o
    → let s' = (committed w s o).0 in
      IsPrefix (contents s'.log) (d s.build) → Reach ordered d s'.bus
unfolding committed perform
committed-Reach d w s none h a p = absurd a
committed-Reach d w s (some (l, start)) h a p =
    let size : length (contents l) ≡ start + length s.db_buf =
      ap length a.1
      ∙ length-append (contents s.log) s.db_buf
      ∙ ap (λ k. k + length s.db_buf) (sym a.2) in
    let new : s.db_buf ≡ slice (contents l) start (length s.db_buf) = sym (
      ap (λ x. slice x start (length s.db_buf)) a.1
      ∙ ap (take (length s.db_buf)) (
          drop-append_past start (contents s.log) s.db_buf (omega (arith, a.2))
          ∙ (let past : start - length (contents s.log) ≡ 0 = omega (arith, a.2) in
              ap (λ k. drop k s.db_buf) past))
      ∙ take_all (length s.db_buf) s.db_buf (omega arith)) in
    next (seeded-Reach d w s l start h a.0 p (omega (arith, size)))
      (publishes_at s.build (pos start) s.db_buf)
      (
        omega (arith, size, p.0),
        new ∙ range (contents l) (d s.build) start (length s.db_buf) p (omega (arith, size)),
      )

-- A flush keeps the bus in a state that truthful calls reach, when the store then holds a prefix of the
-- build's whole log: whether it waits, fails, seeds a missing prefix or publishes.
pub flush_db-Reach :
    (d : ℕ → List ℕ) (w : Weather) (s : Sink)
    → IsStored s.log
    → Reach ordered d s.bus
    → IsPrefix (contents (flush_db w s).0.log) (d s.build)
    → Reach ordered d (flush_db w s).0.bus
unfolding flush_db committed
flush_db-Reach d w s k h =
    if_rule (λ (r : Sink × Bool). IsPrefix (contents r.0.log) (d s.build) → Reach ordered d r.0.bus)
      (is_empty s.db_buf) _ _ (λ e p. h)
      λ e.
        if_rule
          (λ o.
            IsPrefix (contents (committed w s o).0.log) (d s.build)
            → Reach ordered d (committed w s o).0.bus)
          w.busy _ _ (λ busy p. h)
          λ idle.
            committed-Reach d w s (append_build_log s.log s.db_buf) h
              (append_build_log-AppendsTo s.log s.db_buf k)
