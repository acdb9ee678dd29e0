-- ===== src/Db/BuildLog/Slice.antt =====
-- Reading: the bytes that `BuildLogSlice` gathers are the requested range of the stored log.
use build_system.Prelude.{
  ℕ, ◌+◌, ◌-◌, ◌≤◌, ◌<◌, min, max, ◌≡◌, ◌∙◌, ap, ap₂, sym, ◌⊎◌, subst, refl, inl, inr, Bool, false,
  ◌||◌, List, [], ◌∷◌, ◌++◌, Option, none, some, length, take, drop, slice, keep, All, ltb, leb,
  ◌==◌, length-drop, drop_all, slice_append_all, slice-nil, take-min, Bool-cases, if_rule, arith,
  if◌then◌else◌,
}
use build_system.Db.BuildLog.{
  Chunk, BuildLog, state_of, max_below, max_with, piece, pieces, scan_or, scanned, read_chunks,
  build_log_slice,
}
use build_system.Db.BuildLog.Append.{
  Chain, chunk_data, contents, IsStored, state_of-Counted, total-contents, length-chunk_data,
}

-- With every row scanned the pieces make the range.
pieces-slice :
    (start end at e : ℕ) (cs : List Chunk)
    → Chain at cs e
    → pieces start end cs ≡ slice (chunk_data cs) (start - at) (end - max start at)
unfolding pieces piece
pieces-slice start end at e [] h = sym (slice-nil (start - at) (end - max start at))
pieces-slice start end at e (c ∷ cs) h =
    let n = end - max start at in
    let head : piece start end c ≡ slice c.bytes (start - at) n =
      take-min _ n (drop (start - c.byte_offset) c.bytes)
        (omega (arith, h.0, length-drop (start - c.byte_offset) c.bytes))
      ∙ ap (λ k. take n (drop k c.bytes)) (omega (arith, h.0)) in
    ap₂ ◌++◌ head (
      pieces-slice start end (at + length c.bytes) e cs h.3
      ∙ ap₂ (slice (chunk_data cs)) (omega arith) (omega arith))
    ∙ sym (slice_append_all c.bytes (chunk_data cs) (start - at) n)

-- Rows outside the scan hold none of the range.
pieces-keep :
    (p : Chunk → Bool) (start end : ℕ) (cs : List Chunk)
    → All (λ c. p c ≡ false → piece start end c ≡ []) cs
    → pieces start end (keep p cs) ≡ pieces start end cs
unfolding pieces
pieces-keep p start end [] h = refl
pieces-keep p start end (c ∷ cs) h = elim (Bool-cases (p c)) [
  | inl scanned ↦ simp scanned (ap (◌++◌ (piece start end c)) (pieces-keep p start end cs h.1))
  | inr skipped ↦
      simp skipped
        (pieces-keep p start end cs h.1 ∙ ap (λ l. l ++ pieces start end cs) (sym (h.0 skipped)))
]

-- The scan starts at the last row that begins at or before `start`; each row before it ends there.
abbrev Found : ℕ → ℕ → List Chunk → Option ℕ → Type 0
Found at start cs none = All (λ (c : Chunk). start < c.byte_offset) cs
Found at start cs (some p) =
    (at ≤ p)
    × (p ≤ start)
    × All (λ (c : Chunk). c.byte_offset < p → c.byte_offset + length c.bytes ≤ p) cs

none_before :
    (start p : ℕ) (cs : List Chunk)
    → p ≤ start
    → All (λ (c : Chunk). start < c.byte_offset) cs
    → All (λ (c : Chunk). c.byte_offset < p → c.byte_offset + length c.bytes ≤ p) cs
none_before start p [] le h = tt
none_before start p (c ∷ cs) le h =
    ((λ k. absurd (omega (arith, k, le, h.0))), none_before start p cs le h.1)

Found-first :
    (start at : ℕ) (c : Chunk) (cs : List Chunk) (o : Option ℕ)
    → c.byte_offset ≡ at
    → c.byte_offset ≤ start
    → Found (at + length c.bytes) start cs o
    → Found at start (c ∷ cs) (some (max_with o c.byte_offset))
Found-first start at c cs none e le h = (
  omega (arith, e),
  le,
  ((λ k. absurd (omega (arith, k))), none_before start c.byte_offset cs le h),
)
Found-first start at c cs (some p) e le h =
    let same : p ≡ max c.byte_offset p = omega (arith, e, h.0) in
    (
      omega (arith, e, h.0),
      omega (arith, le, h.1),
      (
        (λ k. omega (arith, e, h.0)),
        subst (λ q. All (λ (x : Chunk). x.byte_offset < q → x.byte_offset + length x.bytes ≤ q) cs)
            same h.2,
      ),
    )

Found-later :
    (start at : ℕ) (c : Chunk) (cs : List Chunk) (o : Option ℕ)
    → c.byte_offset ≡ at
    → start < c.byte_offset
    → Found (at + length c.bytes) start cs o
    → Found at start (c ∷ cs) o
Found-later start at c cs none e lt h = (lt, h)
Found-later start at c cs (some p) e lt h = absurd (omega (arith, e, lt, h.0, h.1))

max_below-Found :
    (start at e : ℕ) (cs : List Chunk) → Chain at cs e → Found at start cs (max_below start cs)
unfolding max_below
max_below-Found start at e [] h = tt
max_below-Found start at e (c ∷ cs) h =
    let rest = max_below-Found start (at + length c.bytes) e cs h.3 in
    if_rule (Found at start (c ∷ cs)) (leb c.byte_offset start) _ _
      (λ le. Found-first start at c cs (max_below start cs) h.0 (ground (arith, le)) rest)
      λ lt. Found-later start at c cs (max_below start cs) h.0 (ground (arith, lt)) rest

-- A row that the scan leaves out holds no byte of the range.
unscanned :
    (start end : ℕ) (c : Chunk)
    → (end ≤ c.byte_offset) ⊎ (c.byte_offset + length c.bytes ≤ start)
    → piece start end c ≡ []
unfolding piece
unscanned start end c h =
    let none : min (length c.bytes) (end - c.byte_offset) - (start - c.byte_offset) ≡ 0 =
      omega (arith, h) in
    ap (λ k. take k (drop (start - c.byte_offset) c.bytes)) none

abbrev Skipped : ℕ → ℕ → ℕ → List Chunk → Type 0
Skipped start end from cs = All (λ c. scanned from end c ≡ false → piece start end c ≡ []) cs

Skipped-after :
    (start end : ℕ) (cs : List Chunk)
    → All (λ (c : Chunk). start < c.byte_offset) cs
    → Skipped start end start cs
Skipped-after start end [] h = tt
Skipped-after start end (c ∷ cs) h =
    ((λ out. unscanned start end c (inl (ground (arith, h.0)))), Skipped-after start end cs h.1)

Skipped-before :
    (start end p : ℕ) (cs : List Chunk)
    → p ≤ start
    → All (λ (c : Chunk). c.byte_offset < p → c.byte_offset + length c.bytes ≤ p) cs
    → Skipped start end p cs
Skipped-before start end p [] le h = tt
Skipped-before start end p (c ∷ cs) le h =
    ((λ out. unscanned start end c (ground (arith, h.0))), Skipped-before start end p cs le h.1)

skipped_lem :
    (start end at : ℕ) (cs : List Chunk) (o : Option ℕ)
    → Found at start cs o
    → Skipped start end (scan_or o start) cs
skipped_lem start end at cs none f = Skipped-after start end cs f
skipped_lem start end at cs (some p) f = Skipped-before start end p cs f.1 f.2

read_chunks-slice :
    (start end at e : ℕ) (cs : List Chunk)
    → Chain at cs e
    → read_chunks start end cs ≡ slice (chunk_data cs) (start - at) (end - max start at)
unfolding read_chunks
read_chunks-slice start end at e cs h =
    pieces-keep (scanned (scan_or (max_below start cs) start) end) start end cs
      (skipped_lem start end at cs (max_below start cs) (max_below-Found start at e cs h))
    ∙ pieces-slice start end at e cs h

slice_out : (xs : List ℕ) (start n : ℕ) → (length xs ≤ start) ⊎ (n ≡ 0) → [] ≡ slice xs start n
slice_out xs start n (inl past) = sym (ap (take n) (drop_all start xs past) ∙ slice-nil 0 n)
slice_out xs start n (inr e) = ap (λ k. take k (drop start xs)) (sym e)

-- The part of the range in the legacy column.
prefix_part :
    (legacy : List ℕ) (offset n count leg : ℕ)
    → leg ≡ length legacy
    → (count ≡ n) ⊎ (leg ≤ offset + count)
    → count ≤ n
    → (if ltb offset leg then take (min (leg - offset) count) (drop offset legacy) else [])
      ≡ slice legacy offset n
prefix_part legacy offset n count leg e fits le =
    if_rule (λ r. r ≡ slice legacy offset n) (ltb offset leg) _ _
      (λ before.
        take-min _ n (drop offset legacy) (omega (arith, e, le, fits, length-drop offset legacy)))
      λ after. slice_out legacy offset n (inl (ground (arith, e)))

-- The part of the range in the chunks.
chunk_part :
    (rows : List Chunk) (offset n count leg total : ℕ)
    → Chain leg rows total
    → offset < total
    → count ≡ min n (total - offset)
    → (if ltb (max offset leg) (offset + count)
        then read_chunks (max offset leg) (offset + count) rows
        else [])
      ≡ slice (chunk_data rows) (offset - leg) (n - (leg - offset))
chunk_part rows offset n count leg total chain lt e =
    let sum = length-chunk_data leg rows total chain in
    let len = length-drop (offset - leg) (chunk_data rows) in
    if_rule (λ r. r ≡ slice (chunk_data rows) (offset - leg) (n - (leg - offset)))
      (ltb (max offset leg) (offset + count)) _ _
      (λ some_bytes.
        read_chunks-slice (max offset leg) (offset + count) leg total rows chain
        ∙ ap (λ k. slice (chunk_data rows) k (offset + count - max (max offset leg) leg))
            (omega arith)
        ∙ take-min _ _ (drop (offset - leg) (chunk_data rows)) (omega (arith, sum, len, e, lt)))
      λ no_bytes.
        take-min 0 _ (drop (offset - leg) (chunk_data rows)) (ground (arith, sum, len, e, lt))

-- On a well-formed stored log, `BuildLogSlice` returns the requested range of its contents, across the legacy column and any
-- chunk boundaries, cut off at the end of the log.
pub build_log_slice_lem :
    (l : BuildLog) (offset n : ℕ)
    → IsStored l
    → build_log_slice l offset n ≡ slice (contents l) offset n
unfolding build_log_slice
build_log_slice_lem l offset n h =
    let s = state_of l in
    let k = state_of-Counted l h in
    let count = min n (s.total_bytes - offset) in
    let all = total-contents l h in
    let chain : Chain s.legacy_bytes l.chunks s.total_bytes =
      subst (λ j. Chain j l.chunks s.total_bytes) (sym k.0) k.1 in
    if_rule (λ r. r ≡ slice (contents l) offset n) (leb s.total_bytes offset || n == 0) _ _
      (λ out. slice_out (contents l) offset n (ground (arith, all)))
      λ within.
        ap₂ ◌++◌
          (prefix_part l.legacy offset n count s.legacy_bytes k.0
            (omega (arith, length-chunk_data s.legacy_bytes l.chunks s.total_bytes chain))
            (omega arith))
          (chunk_part l.chunks offset n count s.legacy_bytes s.total_bytes chain (ground arith) refl
            ∙ ap (λ j. slice (chunk_data l.chunks) (offset - j) (n - (j - offset))) k.0)
        ∙ sym (slice_append_all l.legacy (chunk_data l.chunks) offset n)
