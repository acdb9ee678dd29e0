-- ===== src/Db/BuildLog.antt =====
-- internal/db/buildlogs.go: the stored log of one build. `legacy` is the column builds.log, `state`
-- the row of build_log_state, if there is one, and `chunks` the build's rows of build_log_chunks in
-- the order of their primary key.
pub mod Append
pub mod Slice
use build_system.Prelude.{
  ◌||◌, ℕ, zero, suc, ◌+◌, ◌-◌, min, max, Bool, ◌&&◌, List, [], ◌∷◌, ◌++◌, Option, none, some,
  length, take, drop, keep, ltb, leb, ◌==◌, if◌then◌else◌, map,
}

-- `buildLogChunkBytes`.
abbrev pub chunk_bytes : ℕ
chunk_bytes = 65536

pub record Chunk : Type 0 where
  pub byte_offset : ℕ
  pub bytes : List ℕ

pub record LogState : Type 0 where
  pub legacy_bytes : ℕ
  pub total_bytes : ℕ

pub record BuildLog : Type 0 where
  pub legacy : List ℕ
  pub state : Option LogState
  pub chunks : List Chunk

-- What CreateBuild inserts.
abbrev pub new_log : BuildLog
new_log = record {
  legacy = [];
  state = some (record { legacy_bytes = 0; total_bytes = 0 });
  chunks = [];
}

-- `INSERT INTO build_log_chunks`: none where the primary key is taken.
unfoldable pub insert_chunk : Chunk → List Chunk → Option (List Chunk)
insert_chunk c [] = some (c ∷ [])
insert_chunk c (x ∷ xs) =
    let rest = insert_chunk c xs in
    if ltb c.byte_offset x.byte_offset
    then some (c ∷ x ∷ xs)
    else if c.byte_offset == x.byte_offset
    then none
    else elim rest [ none ↦ none | some ys ↦ some (x ∷ ys) ]

-- The loop of `appendBuildLog`: the rows and the new total, for a chunk size.
unfoldable pub append_chunks : ℕ → ℕ → ℕ → List ℕ → List Chunk → Option (List Chunk × ℕ)
append_chunks zero limit total bytes rows = some (rows, total)
append_chunks (suc fuel) limit total [] rows = some (rows, total)
append_chunks (suc fuel) limit total (b ∷ bs) rows =
    let n = min (length (b ∷ bs)) limit in
    elim (insert_chunk (record { byte_offset = total; bytes = take n (b ∷ bs) }) rows) [
      | none ↦ none
      | some rows' ↦ append_chunks fuel limit (total + n) (drop n (b ∷ bs)) rows'
    ]

-- The state row, which the first append inserts.
abbrev pub state_or : Option LogState → List ℕ → LogState
state_or (some s) legacy = s
state_or none legacy = record { legacy_bytes = length legacy; total_bytes = length legacy }

abbrev pub state_of : BuildLog → LogState
state_of l = state_or l.state l.legacy

-- `appendBuildLog`: the log after it and the durable start offset.
unfoldable pub append_build_log : BuildLog → List ℕ → Option (BuildLog × ℕ)
append_build_log l bytes =
    let s = state_of l in
    elim (append_chunks (length bytes) chunk_bytes s.total_bytes bytes l.chunks) [
      | none ↦ none
      | some (rows, total) ↦ some (
        record l { chunks = rows; state = some (record s { total_bytes = total }) },
        s.total_bytes,
      )
    ]

-- `BuildLogLen`.
unfoldable pub build_log_len : BuildLog → ℕ
build_log_len l = elim l.state [ some s ↦ s.total_bytes | none ↦ length l.legacy ]

abbrev pub max_with : Option ℕ → ℕ → ℕ
max_with none n = n
max_with (some p) n = max n p

-- `SELECT MAX(byte_offset) ... WHERE byte_offset <= ?`.
pub max_below : ℕ → List Chunk → Option ℕ
max_below start [] = none
max_below start (c ∷ cs) =
    let rest = max_below start cs in
    if leb c.byte_offset start then some (max_with rest c.byte_offset) else rest

-- `substr(data, max(0, start-byte_offset)+1, min(length(data), end-byte_offset)-max(0, start-byte_offset))`.
pub piece : ℕ → ℕ → Chunk → List ℕ
piece start end c =
    take (min (length c.bytes) (end - c.byte_offset) - (start - c.byte_offset))
      (drop (start - c.byte_offset) c.bytes)

pub pieces : ℕ → ℕ → List Chunk → List ℕ
pieces start end [] = []
pieces start end (c ∷ cs) = piece start end c ++ pieces start end cs

-- The range scan: from the offset of the predecessor lookup, or `start`, to `end`.
abbrev pub scan_or : Option ℕ → ℕ → ℕ
scan_or none start = start
scan_or (some p) start = p

abbrev pub scanned : ℕ → ℕ → Chunk → Bool
scanned from end c = leb from c.byte_offset && ltb c.byte_offset end

-- The chunk query of `BuildLogSlice`.
pub read_chunks : ℕ → ℕ → List Chunk → List ℕ
read_chunks start end rows =
    pieces start end (keep (scanned (scan_or (max_below start rows) start) end) rows)

-- `BuildLogSlice` for an offset that is not negative.
pub build_log_slice : BuildLog → ℕ → ℕ → List ℕ
build_log_slice l offset n =
    let s = state_of l in
    let count = min n (s.total_bytes - offset) in
    let end = offset + count in
    let prefix =
      if ltb offset s.legacy_bytes
      then take (min (s.legacy_bytes - offset) count) (drop offset l.legacy)
      else [] in
    let start = max offset s.legacy_bytes in
    if leb s.total_bytes offset || n == 0
    then []
    else prefix ++ (if ltb start end then read_chunks start end l.chunks else [])
