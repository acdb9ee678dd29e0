-- ===== src/Logbus/Topic/Snapshot.antt =====
-- The bytes that a topic hands out at once: the snapshot of `Subscribe`, and `LogTail`.
use build_system.Prelude.{
  ℕ, ◌-◌, ◌≤◌, min, ◌≡◌, ◌∙◌, ap, ap₂, sym, refl, inl, inr, List, [], Option, some, length, drop,
  slice, ltb, leb, if◌then◌else◌, if_rule, Bool-cases, drop-slice, arith,
}
use build_system.Prelude.Int.{ℤ, or_zero}
use build_system.Logbus.Topic.{Topic, total, Subscription, subscribe, snapshot_from, log_tail}
use build_system.Logbus.Topic.Tail.{IsTail}
use build_system.Logbus.Topic.Stream.{Mode}
use build_system.Logbus.Topic.Serve.{IsServing}

drop_tail :
    (d : List ℕ) (t : Topic) (at : ℕ)
    → IsTail d t
    → t.base ≤ at
    → at ≤ total t
    → drop (at - t.base) t.buf ≡ slice d at (total t - at)
drop_tail d t at h lo hi =
    ap (drop (at - t.base)) h.bytes
    ∙ drop-slice (at - t.base) d t.base (length t.buf)
    ∙ ap₂ (slice d) (omega (arith, lo)) (omega (arith, lo, hi))

-- What `Subscribe` hands out.
abbrev JoinsAt : Topic → List ℕ → Topic × Subscription → Type 0
JoinsAt t bytes (u, reply) =
    (reply.snapshot ≡ bytes)
    × (reply.cur ≡ total t)
    × ((u.chans reply.chan).cursor ≡ reply.cur)
    × ((u.chans reply.chan).queue ≡ [])
    × ((u.chans reply.chan).closed ≡ t.closed)

snapshot_from_lem :
    (m : Mode) (d : List ℕ) (t : Topic) (from : ℤ)
    → IsServing m d t
    → let at = min (or_zero from) (total t) in
      snapshot_from t from ≡ (if leb t.base at then slice d at (total t - at) else [])
unfolding snapshot_from
snapshot_from_lem m d t from h =
    let at = min (or_zero from) (total t) in
    elim (Bool-cases (leb t.base at)) [
      | inl kept ↦ simp kept (drop_tail d t at h.tail (ground arith) (omega arith))
      | inr gone ↦ simp gone
    ]

subscribe-JoinsAt : (t : Topic) (from : ℤ) → JoinsAt t (snapshot_from t from) (subscribe t from)
unfolding subscribe
subscribe-JoinsAt t from =
    if_rule (JoinsAt t (snapshot_from t from)) t.closed _ _
      (λ over. (refl, refl, ground arith, ground arith, ground (arith, over)))
      λ live. (refl, refl, ground arith, ground arith, ground (arith, live))

-- `Subscribe` on a topic that serves `d`: the snapshot runs from the requested offset, clamped to the
-- total, up to the total (and is empty where that offset predates the retained bytes), and the new
-- channel starts at the total with an empty queue, so that the two join with no gap and no overlap.
pub subscribe_joins :
    (m : Mode) (d : List ℕ) (t : Topic) (from : ℤ)
    → IsServing m d t
    → let at = min (or_zero from) (total t) in
      let reply = (subscribe t from).1 in
      let ch = (subscribe t from).0.chans reply.chan in
      (reply.snapshot ≡ (if leb t.base at then slice d at (total t - at) else []))
      × (reply.cur ≡ total t)
      × (ch.cursor ≡ reply.cur)
      × (ch.queue ≡ [])
      × (ch.closed ≡ t.closed)
subscribe_joins m d t from h =
    let j = subscribe-JoinsAt t from in (j.0 ∙ snapshot_from_lem m d t from h, j.1, j.2, j.3, j.4)

-- `LogTail` on a topic that serves `d`.
pub tail_lem :
    (m : Mode) (d : List ℕ) (t : Topic) (from : ℤ) (bytes : List ℕ) (cur : ℕ)
    → IsServing m d t
    → log_tail t from ≡ (some bytes, cur)
    → (bytes ≡ slice d (min (or_zero from) cur) (cur - min (or_zero from) cur)) × (cur ≤ length d)
unfolding log_tail
tail_lem m d t from bytes cur h =
    if_rule
      (λ (p : Option (List ℕ) × ℕ).
        p ≡ (some bytes, cur)
        → (bytes ≡ slice d (min (or_zero from) cur) (cur - min (or_zero from) cur))
          × (cur ≤ length d))
      (ltb (or_zero from) t.base) _ _ (λ gone e. cc)
      λ kept e.
        let cut =
          drop_tail d t (min (or_zero from) (total t)) h.tail (ground arith) (omega arith) in
        let here : drop (min (or_zero from) (total t) - t.base) t.buf ≡ bytes = cc e in
        let end : total t ≡ cur = cc e in
        (
          sym here ∙ cut ∙ ap (λ k. slice d (min (or_zero from) k) (k - min (or_zero from) k)) end,
          omega (arith, end, h.tail.within),
        )
