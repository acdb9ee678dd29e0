-- ===== src/Logbus/Topic/Tail.antt =====
-- `appendTail`: what the topic retains, and how much.
use build_system.Prelude.{
  ℕ, ◌+◌, ◌-◌, ◌≤◌, min, ◌≡◌, ◌∙◌, ap, ap₂, sym, inl, inr, List, ◌++◌, length, drop, slice, leb,
  ltb, length-append, length-drop, drop-append, drop-append_past, drop-slice, slice-append,
  Bool-cases, arith,
}
use build_system.Logbus.Topic.{Topic, total, max_retained, retain_tail, append_tail}

retain_tail_long :
    (limit : ℕ) (buf chunk : List ℕ)
    → limit ≤ length chunk
    → drop (length buf + length chunk - limit) (buf ++ chunk) ≡ drop (length chunk - limit) chunk
retain_tail_long limit buf chunk h =
    let e : length buf + length chunk - limit - length buf ≡ length chunk - limit = omega arith in
    drop-append_past (length buf + length chunk - limit) buf chunk (omega arith)
    ∙ ap (λ k. drop k chunk) e

-- Both branches keep the last `limit` bytes of the old contents and the chunk.
pub retain_tail_lem :
    (limit : ℕ) (buf chunk : List ℕ)
    → retain_tail limit buf chunk ≡ drop (length buf + length chunk - limit) (buf ++ chunk)
unfolding retain_tail
retain_tail_lem limit buf chunk = elim (Bool-cases (leb limit (length chunk))) [
  | inl long ↦ rw long (sym (retain_tail_long limit buf chunk (ground arith)))
  | inr short ↦ rw short (elim (Bool-cases (ltb limit (length buf + length chunk))) [
    | inl over ↦ rw over (sym (drop-append _ buf chunk (ground arith)))
    | inr fits ↦
        let e : 0 ≡ length buf + length chunk - limit = ground arith in
        rw fits (ap (λ k. drop k (buf ++ chunk)) e)
  ])
]

pub length-retain_tail :
    (limit : ℕ) (buf chunk : List ℕ)
    → length (retain_tail limit buf chunk) ≡ min limit (length buf + length chunk)
length-retain_tail limit buf chunk = rw (retain_tail_lem limit buf chunk) (
    omega (
      arith,
      length-drop (length buf + length chunk - limit) (buf ++ chunk),
      length-append buf chunk,
    ))

-- The retained bytes are those of the durable log `d` at the topic's absolute offsets.
pub record IsTail (d : List ℕ) (t : Topic) : Type 0 where
  pub within : total t ≤ length d
  pub bytes : t.buf ≡ slice d t.base (length t.buf)

-- The retention bound, and a backing array that is large enough and no larger than the limit.
pub record IsBounded (t : Topic) : Type 0 where
  pub retained : length t.buf ≤ max_retained
  pub stored : length t.buf ≤ t.capacity
  pub capped : t.capacity ≤ max_retained

pub total-append_tail :
    (t : Topic) (chunk : List ℕ) → total (append_tail t chunk) ≡ total t + length chunk
unfolding append_tail
total-append_tail t chunk = omega (arith, length-retain_tail max_retained t.buf chunk)

-- Appending a chunk of any size keeps the bounds; the array never outgrows the limit.
pub append_tail-IsBounded :
    (t : Topic) (chunk : List ℕ) → IsBounded t → IsBounded (append_tail t chunk)
unfolding append_tail
append_tail-IsBounded t chunk b = ground (arith, length-retain_tail max_retained t.buf chunk)

retain_tail-slice :
    (d : List ℕ) (base limit : ℕ) (buf chunk : List ℕ)
    → buf ≡ slice d base (length buf)
    → chunk ≡ slice d (base + length buf) (length chunk)
    → retain_tail limit buf chunk
      ≡ slice d
          (base + (length buf + length chunk - limit))
          (length buf + length chunk - (length buf + length chunk - limit))
retain_tail-slice d base limit buf chunk hb hc =
    retain_tail_lem limit buf chunk
    ∙ ap (drop _) (ap₂ ◌++◌ hb hc ∙ slice-append d base (length buf) (length chunk))
    ∙ drop-slice _ d base (length buf + length chunk)

-- Appending the next bytes of the log keeps the retained bytes a range of the log.
pub append_tail-IsTail :
    (d : List ℕ) (t : Topic) (chunk : List ℕ)
    → IsTail d t
    → total t + length chunk ≤ length d
    → chunk ≡ slice d (total t) (length chunk)
    → IsTail d (append_tail t chunk)
unfolding append_tail
append_tail-IsTail d t chunk h fits same = record {
  within = omega (arith, h, fits, length-retain_tail max_retained t.buf chunk);
  bytes =
      retain_tail-slice d t.base max_retained t.buf chunk h.bytes same
      ∙ ap₂ (slice d) (omega (arith, length-retain_tail max_retained t.buf chunk))
          (omega (arith, length-retain_tail max_retained t.buf chunk));
}
