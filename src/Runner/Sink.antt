-- ===== src/Runner/Sink.antt =====
-- internal/runner/sink.go: the writer that batches command output, commits it to the stored log and then
-- publishes it, with scrubSecret of runner.go. `replace_all` is strings.ReplaceAll, `user_info` the text
-- of url.User, `full_rune` utf8.FullRune. A call holds the sink's mutex, so it is one step; whether the
-- store is busy or unreadable and what the clock says are inputs.
pub mod Keep
pub mod Durable
pub mod Publish
use build_system.Prelude.{
  ℕ, zero, suc, ◌+◌, ◌-◌, max, Bool, true, false, not, ◌&&◌, ◌||◌, List, [], ◌∷◌, ◌++◌, Option,
  none, some, length, take, drop, get_or, ltb, leb, ◌==◌, if◌then◌else◌,
}
use build_system.Prelude.Int.{pos}
use build_system.Prelude.Text.{rune_start, rune_floor, same_bytes}
use build_system.Logbus.{Bus, topic_length, seed_at, publish_at}
use build_system.Logbus.Topic.{max_retained}
use build_system.Db.BuildLog.{BuildLog, append_build_log, build_log_slice}

-- `sinkFlushInterval` in nanoseconds, `sinkFlushBytes`, `sinkMaxHold`.
abbrev pub flush_interval : ℕ
flush_interval = 500000000

abbrev pub flush_bytes : ℕ
flush_bytes = 8192

abbrev pub max_hold : ℕ
max_hold = 8192

-- The sink with what it writes to.
pub record Sink : Type 0 where
  pub build : ℕ
  pub secret : List ℕ
  pub enc_secret : List ℕ
  pub line_buf : List ℕ
  pub db_buf : List ℕ
  pub last_flush : ℕ
  pub closed : Bool
  pub log : BuildLog
  pub bus : Bus

-- The clock, and whether the append or the read of the prefix fails.
pub record Weather : Type 0 where
  pub now : ℕ
  pub busy : Bool
  pub unreadable : Bool

abbrev pub is_empty : List ℕ → Bool
is_empty [] = true
is_empty (b ∷ bs) = false

-- `lastTerminator`, as the count of the bytes up to it; 0 where there is none.
unfoldable pub last_terminator : List ℕ → ℕ
last_terminator [] = 0
last_terminator (b ∷ bs) =
    let rest = last_terminator bs in
    if rest == 0 then (if b == 10 || b == 13 then 1 else 0) else suc rest

abbrev pub holdback : Sink → ℕ
holdback s = if is_empty s.secret then 0 else max (length s.secret) (length s.enc_secret)

-- The seed of the bytes before an append, for a bus that lacks them.
abbrev pub lacks : Option ℕ → ℕ → Bool
lacks none start = true
lacks (some n) start = ltb n start

unfoldable pub seeded : Weather → Sink → BuildLog → ℕ → Bus
seeded w s l start =
    let from = start - max_retained in
    if lacks (topic_length s.bus s.build) start && not w.unreadable
    then (seed_at s.bus s.build (pos from) (build_log_slice l from (start - from))).0
    else s.bus

unfoldable pub committed : Weather → Sink → Option (BuildLog × ℕ) → Sink × Bool
committed w s none = (record s { last_flush = w.now }, false)
committed w s (some (l, start)) = (
  record s {
    log = l;
    bus = publish_at (seeded w s l start) s.build (pos start) s.db_buf;
    db_buf = [];
    last_flush = w.now;
  },
  true,
)

-- `flushDBLocked`; the flag says that it did not fail.
unfoldable pub flush_db : Weather → Sink → Sink × Bool
flush_db w s =
    if is_empty s.db_buf
    then (record s { last_flush = w.now }, true)
    else committed w s (if w.busy then none else append_build_log s.log s.db_buf)

-- What happens to a sink: a write, a tick of the background flusher, or a close.
pub data Act : Type 0 where
  writes : List ℕ → Act
  ticks closes : Act

module _ (replace_all : List ℕ → List ℕ → List ℕ → List ℕ) (user_info : List ℕ → List ℕ)
    (full_rune : List ℕ → Bool) where
  abbrev stars : List ℕ
  stars = 42 ∷ 42 ∷ 42 ∷ []

  -- `newLogSink`.
  pub new_sink : ℕ → ℕ → List ℕ → BuildLog → Bus → Sink
  new_sink now build secret l b = record {
    build = build;
    secret = secret;
    enc_secret = if is_empty secret then [] else user_info secret;
    line_buf = [];
    db_buf = [];
    last_flush = now;
    closed = false;
    log = l;
    bus = b;
  }

  -- `scrubSecret`.
  unfoldable pub scrub_secret : List ℕ → List ℕ → List ℕ
  scrub_secret text secret =
      let masked = replace_all text secret stars in
      let enc = user_info secret in
      if is_empty secret
      then text
      else if same_bytes enc secret
      then masked
      else replace_all masked enc stars

  -- `emitLocked`.
  unfoldable pub emit : List ℕ → Sink → Sink
  emit chunk s =
      if is_empty chunk then s else record s { db_buf = s.db_buf ++ scrub_secret chunk s.secret }

  -- The emission of the first bytes of `line_buf`.
  unfoldable pub emit_first : ℕ → Sink → Sink
  emit_first n s = record (emit (take n s.line_buf) s) { line_buf = drop n s.line_buf }

  -- The hold of an incomplete rune at the end; the first number is what is left of `utf8.UTFMax`.
  pub whole_runes : ℕ → ℕ → List ℕ → ℕ → ℕ
  whole_runes zero k line cut = cut
  whole_runes (suc fuel) k line cut =
      let rest = whole_runes fuel (suc k) line cut in
      if ltb cut k
      then cut
      else if rune_start (get_or line (cut - k) 0)
      then (if full_rune (take k (drop (cut - k) line)) then cut else cut - k)
      else rest

  abbrev pub cut_of : Sink → ℕ
  cut_of s =
      let n = length s.line_buf in
      let cut = n - holdback s in
      if leb n cut then whole_runes 4 1 s.line_buf n else rune_floor s.line_buf cut

  -- The forced drain of a line that is too long.
  unfoldable pub drain : Sink → Sink
  drain s =
      let scrubbed =
        if is_empty s.secret then s else record s { line_buf = scrub_secret s.line_buf s.secret } in
      let cut = cut_of scrubbed in
      if ltb max_hold (length s.line_buf)
      then (if ltb 0 cut then emit_first cut scrubbed else scrubbed)
      else s

  -- `Write` up to its flush.
  unfoldable pub take_in : List ℕ → Sink → Sink
  take_in p s =
      let joined = record s { line_buf = s.line_buf ++ p } in
      let n = last_terminator joined.line_buf in
      drain (if ltb 0 n then emit_first n joined else joined)

  -- `Write`; the flag says that it returned no error.
  unfoldable pub write : Weather → List ℕ → Sink → Sink × Bool
  write w p s =
      let s' = take_in p s in
      if s.closed
      then (s, true)
      else if leb flush_bytes (length s'.db_buf) || leb flush_interval (w.now - s'.last_flush)
      then flush_db w s'
      else (s', true)

  -- `Close`.
  unfoldable pub close : Weather → Sink → Sink × Bool
  close w s =
      let closing = record s { closed = true } in
      let s' =
        (flush_db w (
          if is_empty s.line_buf
          then closing
          else record (emit s.line_buf closing) { line_buf = [] })).0 in
      (s', is_empty s'.db_buf)

  unfoldable pub act : Weather → Act → Sink → Sink
  act w (writes p) s = (write w p s).0
  act w ticks s = (flush_db w s).0
  act w closes s = (close w s).0

  unfoldable pub run : List (Weather × Act) → Sink → Sink
  run [] s = s
  run ((w, a) ∷ rest) s = run rest (act w a s)
