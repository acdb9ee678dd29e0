-- ===== src/Runner/Tests.antt =====
-- A sink that is written to while the store is busy, and closed.
use build_system.Prelude.{ℕ, ◌≡◌, refl, Bool, true, false, List, [], ◌∷◌, arith}
use build_system.Logbus.{new_bus}
use build_system.Logbus.Topic.Stream.{ordered}
use build_system.Logbus.Reach.{Reach, fresh}
use build_system.Db.BuildLog.{new_log, append_build_log, append_chunks, insert_chunk}
use build_system.Db.BuildLog.Append.{contents}
use build_system.Runner.Sink.{
  Sink, Weather, Act, writes, ticks, run, close, act, write, take_in, emit, emit_first, drain,
  scrub_secret, last_terminator, flush_db, committed, seeded,
}
use build_system.Runner.Sink.Keep.{IsPlain}
use build_system.Runner.Sink.Durable.{Holds, output_kept, close_durable}
use build_system.Runner.Sink.Publish.{flush_db-Reach}

-- The library calls where there is no secret and no cut rune.
abbrev same_bytes : List ℕ → List ℕ → List ℕ → List ℕ
same_bytes text old new = text

abbrev same_info : List ℕ → List ℕ
same_info secret = secret

abbrev always_full : List ℕ → Bool
always_full bytes = true

abbrev empty_sink : Sink
empty_sink = record {
  build = 3;
  secret = [];
  enc_secret = [];
  line_buf = [];
  db_buf = [];
  last_flush = 0;
  closed = false;
  log = new_log;
  bus = new_bus;
}

empty-IsPlain : IsPlain empty_sink
empty-IsPlain = record { stored = (refl, refl); open_text = refl }

abbrev calm : ℕ → Weather
calm now = record { now = now; busy = false; unreadable = false }

-- "ab", a line end and "c"; the store is busy at the first tick.
abbrev acts : List (Weather × Act)
acts =
    (calm 1, writes (97 ∷ 98 ∷ []))
    ∷ (calm 2, writes (10 ∷ 99 ∷ []))
    ∷ (record (calm 3) { busy = true }, ticks)
    ∷ []

output_kept_example :
    Holds empty_sink (run same_bytes same_info always_full acts empty_sink) (97 ∷ 98 ∷ 10 ∷ 99 ∷ [])
output_kept_example = output_kept same_bytes same_info always_full acts empty_sink empty-IsPlain

close_durable_example :
    contents
      (close same_bytes same_info always_full
        (calm 4)
        (run same_bytes same_info always_full acts empty_sink)).0.log
    ≡ 97 ∷ 98 ∷ 10 ∷ 99 ∷ []
unfolding run act write take_in emit_first emit drain scrub_secret last_terminator flush_db
    committed close append_build_log append_chunks insert_chunk seeded
close_durable_example =
    close_durable same_bytes same_info always_full acts (calm 4) empty_sink empty-IsPlain refl

abbrev filled : Sink
filled = record empty_sink { db_buf = 97 ∷ 98 ∷ [] }

flush_db-Reach_example : Reach ordered (λ id. 97 ∷ 98 ∷ 99 ∷ []) (flush_db (calm 4) filled).0.bus
unfolding flush_db committed append_build_log append_chunks insert_chunk
flush_db-Reach_example =
    flush_db-Reach (λ id. 97 ∷ 98 ∷ 99 ∷ []) (calm 4) filled (refl, refl) fresh (omega arith, refl)
