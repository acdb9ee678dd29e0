-- ===== src/Db/BuildLog/Append.antt =====
-- Appending writes the bytes behind all others, in chunks that fill the range without a gap.
use build_system.Prelude.{
  ℕ, zero, suc, ◌+◌, ◌≤◌, ◌<◌, min, ◌≡◌, ◌∙◌, ap, sym, subst, refl, List, [], ◌∷◌, ◌++◌, Option,
  none, some, length, take, drop, length-take, length-drop, length-append, take-append-drop, arith,
}
use build_system.Db.BuildLog.{
  Chunk, LogState, BuildLog, chunk_bytes, insert_chunk, append_chunks, append_build_log,
  build_log_len, state_of, state_or,
}
use mathlib.Core.List.{append_assoc, append-nil}

-- The rows cover the bytes from `at` to `end`, each of 1 to 65536 bytes (the table's CHECK).
abbrev pub Chain : ℕ → List Chunk → ℕ → Type 0
Chain at [] end = at ≡ end
Chain at (c ∷ cs) end =
    (c.byte_offset ≡ at)
    × (0 < length c.bytes)
    × (length c.bytes ≤ chunk_bytes)
    × Chain (at + length c.bytes) cs end

abbrev pub chunk_data : List Chunk → List ℕ
chunk_data [] = []
chunk_data (c ∷ cs) = c.bytes ++ chunk_data cs

-- The whole stored log.
abbrev pub contents : BuildLog → List ℕ
contents l = l.legacy ++ chunk_data l.chunks

-- A state row counts the legacy bytes and the end of the chunks; with no row there is no chunk.
abbrev StateOk : Option LogState → BuildLog → Type 0
StateOk none l = l.chunks ≡ []
StateOk (some s) l =
    (s.legacy_bytes ≡ length l.legacy) × Chain (length l.legacy) l.chunks s.total_bytes

abbrev pub IsStored : BuildLog → Type 0
IsStored l = StateOk l.state l

Chain-le : (at : ℕ) (cs : List Chunk) (end : ℕ) → Chain at cs end → at ≤ end
Chain-le at [] end h = omega (arith, h)
Chain-le at (c ∷ cs) end h = omega (arith, Chain-le (at + length c.bytes) cs end h.3)

-- A key behind all others goes to the end of the table.
insert_chunk_last :
    (at : ℕ) (cs : List Chunk) (end : ℕ) (c : Chunk)
    → Chain at cs end
    → c.byte_offset ≡ end
    → insert_chunk c cs ≡ some (cs ++ c ∷ [])
unfolding insert_chunk
insert_chunk_last at [] end c h e = refl
insert_chunk_last at (x ∷ cs) end c h e = ground (
  arith,
  insert_chunk_last (at + length x.bytes) cs end c h.3 e,
  Chain-le (at + length x.bytes) cs end h.3,
)

Chain-snoc :
    (at : ℕ) (cs : List Chunk) (end : ℕ) (c : Chunk)
    → Chain at cs end
    → c.byte_offset ≡ end
    → 0 < length c.bytes
    → length c.bytes ≤ chunk_bytes
    → Chain at (cs ++ c ∷ []) (end + length c.bytes)
Chain-snoc at [] end c h e lo hi = (omega (arith, h, e), lo, hi, omega (arith, h))
Chain-snoc at (x ∷ cs) end c h e lo hi =
    (h.0, h.1, h.2, Chain-snoc (at + length x.bytes) cs end c h.3 e lo hi)

chunk_data-append : (cs ds : List Chunk) → chunk_data (cs ++ ds) ≡ chunk_data cs ++ chunk_data ds
chunk_data-append [] ds = refl
chunk_data-append (c ∷ cs) ds =
    rw (chunk_data-append cs ds) (sym (append_assoc c.bytes (chunk_data cs) (chunk_data ds)))

-- What the loop leaves.
abbrev Appended : ℕ → List Chunk → List ℕ → ℕ → Option (List Chunk × ℕ) → Type 0
Appended at rows bytes total none = ⊥
Appended at rows bytes total (some (rows', total')) =
    (total' ≡ total + length bytes)
    × Chain at rows' total'
    × (chunk_data rows' ≡ chunk_data rows ++ bytes)

Appended-shift :
    (at : ℕ) (rows rows' : List Chunk) (bytes : List ℕ) (n total : ℕ) (o : Option (List Chunk × ℕ))
    → n ≤ length bytes
    → chunk_data rows' ≡ chunk_data rows ++ take n bytes
    → Appended at rows' (drop n bytes) (total + n) o
    → Appended at rows bytes total o
Appended-shift at rows rows' bytes n total none le e h = h
Appended-shift at rows rows' bytes n total (some (last, total')) le e h = (
  omega (arith, h.0, length-drop n bytes),
  h.1,
  h.2
      ∙ ap (λ l. l ++ drop n bytes) e
      ∙ append_assoc (chunk_data rows) (take n bytes) (drop n bytes)
      ∙ ap (◌++◌ (chunk_data rows)) (take-append-drop n bytes),
)

append_chunks-Appended :
    (fuel limit at total : ℕ) (bytes : List ℕ) (rows : List Chunk)
    → 0 < limit
    → limit ≤ chunk_bytes
    → length bytes ≤ fuel
    → Chain at rows total
    → Appended at rows bytes total (append_chunks fuel limit total bytes rows)
unfolding append_chunks
append_chunks-Appended zero limit at total [] rows l u f h =
    (omega arith, h, sym (append-nil (chunk_data rows)))
append_chunks-Appended zero limit at total (b ∷ bytes) rows l u f h = absurd (omega arith)
append_chunks-Appended (suc fuel) limit at total [] rows l u f h =
    (omega arith, h, sym (append-nil (chunk_data rows)))
append_chunks-Appended (suc fuel) limit at total (b ∷ bytes) rows l u f h =
    let n = min (suc (length bytes)) limit in
    let c : Chunk = record { byte_offset = total; bytes = take n (b ∷ bytes) } in
    let size : length c.bytes ≡ n = omega (arith, length-take n (b ∷ bytes)) in
    let chain : Chain at (rows ++ c ∷ []) (total + n) =
      subst (λ k. Chain at (rows ++ c ∷ []) (total + k)) size
        (Chain-snoc at rows total c h refl (omega (arith, size, l)) (omega (arith, size, u))) in
    let written : chunk_data (rows ++ c ∷ []) ≡ chunk_data rows ++ take n (b ∷ bytes) =
      chunk_data-append rows (c ∷ []) ∙ ap (◌++◌ (chunk_data rows)) (append-nil c.bytes) in
    let ih =
      append_chunks-Appended fuel limit at (total + n) (drop n (b ∷ bytes)) (rows ++ c ∷ []) l u
        (omega (arith, f, l, length-drop n (b ∷ bytes))) chain in
    rw (insert_chunk_last at rows total c h refl, append_chunks)
      (Appended-shift at rows (rows ++ c ∷ []) (b ∷ bytes) n total _ (omega arith) written ih)

abbrev pub AppendsTo : BuildLog → List ℕ → Option (BuildLog × ℕ) → Type 0
AppendsTo l bytes none = ⊥
AppendsTo l bytes (some (l', start)) =
    IsStored l'
    × (contents l' ≡ contents l ++ bytes)
    × (start ≡ length (contents l))
    × (l'.legacy ≡ l.legacy)

pub length-chunk_data :
    (at : ℕ) (cs : List Chunk) (end : ℕ) → Chain at cs end → at + length (chunk_data cs) ≡ end
length-chunk_data at [] end h = omega (arith, h)
length-chunk_data at (c ∷ cs) end h = omega (
  arith,
  length-append c.bytes (chunk_data cs),
  length-chunk_data (at + length c.bytes) cs end h.3,
)

abbrev Counted : BuildLog → LogState → Type 0
Counted l s = (s.legacy_bytes ≡ length l.legacy) × Chain (length l.legacy) l.chunks s.total_bytes

state_or-Counted :
    (o : Option LogState) (l : BuildLog) → StateOk o l → Counted l (state_or o l.legacy)
state_or-Counted (some s) l h = h
state_or-Counted none l h =
    (refl, subst (λ cs. Chain (length l.legacy) cs (length l.legacy)) (sym h) refl)

pub state_of-Counted : (l : BuildLog) → IsStored l → Counted l (state_of l)
state_of-Counted l h = state_or-Counted l.state l h

pub total-contents : (l : BuildLog) → IsStored l → (state_of l).total_bytes ≡ length (contents l)
total-contents l h = omega (
  arith,
  length-append l.legacy (chunk_data l.chunks),
  length-chunk_data (length l.legacy) l.chunks (state_of l).total_bytes (state_of-Counted l h).1,
)

-- On a well-formed stored log, BuildLogLen is the length of the contents, with or without a state row.
pub build_log_len_lem : (l : BuildLog) → IsStored l → build_log_len l ≡ length (contents l)
unfolding build_log_len
build_log_len_lem l h = ground (arith, total-contents l h)

-- An append never fails on a well-formed log: it returns the old length as the durable start, and the
-- stored log is the old one followed by the bytes, cut into chunks that the table accepts; the
-- legacy column is not touched.
pub append_build_log-AppendsTo :
    (l : BuildLog) (bytes : List ℕ) → IsStored l → AppendsTo l bytes (append_build_log l bytes)
unfolding append_build_log
append_build_log-AppendsTo l bytes h =
    go (append_chunks (length bytes) chunk_bytes (state_of l).total_bytes bytes l.chunks) (
      append_chunks-Appended (length bytes) chunk_bytes (length l.legacy) (state_of l).total_bytes
        bytes l.chunks (omega arith) (omega arith) (omega arith) (state_of-Counted l h).1)
  where
    go :
        (o : Option (List Chunk × ℕ))
        → Appended (length l.legacy) l.chunks bytes (state_of l).total_bytes o
        → AppendsTo l bytes (elim o [
          | none ↦ none
          | some (rows, total) ↦ some (
            record l { chunks = rows; state = some (record (state_of l) { total_bytes = total }) },
            (state_of l).total_bytes,
          )
        ])
    go none a = a
    go (some (rows, total)) a = (
      ((state_of-Counted l h).0, a.1),
      ap (◌++◌ l.legacy) a.2 ∙ sym (append_assoc l.legacy (chunk_data l.chunks) bytes),
      total-contents l h,
      refl,
    )
