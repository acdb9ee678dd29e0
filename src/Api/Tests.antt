-- ===== src/Api/Tests.antt =====
-- A stream that starts inside the log, sees an event twice, misses one, and reconnects.
use build_system.Prelude.{
  ℕ, ◌-◌, ◌≡◌, refl, false, List, [], ◌∷◌, ◌++◌, none, some, slice, map, ltb, if◌then◌else◌, arith,
}
use build_system.Models.Status.{running, success}
use build_system.Logbus.Channel.{log, status}
use build_system.Api.Events.{
  Summary, read, View, Input, receives, Stream, open_stream, run, begin, on_input, receive_log,
  receive_status, deliver, stored_tail, fill, log_frame, status_frame,
}
use build_system.Api.Events.Loop.{AllTrue}
use build_system.Api.Events.Resume.{log_bytes}
use build_system.Api.Events.Wire.{wire, Wired, stream-Wired, resumed_wired}

abbrev whole : List ℕ
whole = 1 ∷ 2 ∷ 3 ∷ 4 ∷ 5 ∷ 6 ∷ []

abbrev row : Summary
row = record {
  state = running;
  started_at = some 1;
  finished_at = none;
  agent = "a";
  executor = "mac";
}

abbrev early : View
early = record { row = some row; stored = read 2 (1 ∷ 2 ∷ []) }

abbrev late : View
late = record { row = some row; stored = read 6 whole }

-- Bytes 2 to 4, the same again, and the end: bytes 5 and 6 were dropped.
abbrev inputs : List (View × Input)
inputs =
    (early, receives (log (2 ∷ 3 ∷ 4 ∷ []) 4))
    ∷ (early, receives (log (2 ∷ 3 ∷ 4 ∷ []) 4))
    ∷ (late, receives (status success (some 1) (some 9)))
    ∷ []

abbrev opened : Stream
opened = record {
  sent = 2;
  owner = row;
  frames = status_frame running (some 1) none "a" "mac" ∷ log_frame (2 ∷ []) 2 ∷ [];
  ended = false;
}

opened_at : open_stream 1 (some row) early early ≡ some opened
unfolding open_stream begin
opened_at = refl

inputs_true : AllTrue whole inputs
inputs_true = (
  (omega arith, omega arith, refl),
  (omega arith, omega arith, refl),
  (
    (omega arith, omega arith, refl),
    (omega arith, omega arith, refl),
    ((omega arith, omega arith, refl), tt, tt),
  ),
)

-- A client's text of some bytes, where each one that is not ASCII reads as a question mark.
abbrev ascii : List ℕ → List ℕ
ascii l = map (λ b. if ltb b 128 then b else 63) l

stream-Wired_example : Wired ascii whole 1 (wire ascii (run inputs opened).frames) 6
unfolding run on_input receive_log receive_status deliver stored_tail fill
stream-Wired_example =
    stream-Wired ascii whole 1 (some row) early early opened inputs opened_at
      (omega arith, omega arith, refl) (omega arith, omega arith, refl) inputs_true

abbrev resumed_at : Stream
resumed_at = record {
  sent = 6;
  owner = row;
  frames = status_frame running (some 1) none "a" "mac" ∷ log_frame (3 ∷ 4 ∷ 5 ∷ 6 ∷ []) 6 ∷ [];
  ended = false;
}

reopened : open_stream 2 (some row) late late ≡ some resumed_at
unfolding open_stream begin
reopened = refl

resumed_wired_example :
    log_bytes (wire ascii opened.frames) ++ log_bytes (wire ascii (run [] resumed_at).frames)
    ≡ slice whole 1 ((run [] resumed_at).sent - 1)
unfolding run
resumed_wired_example =
    resumed_wired ascii whole 1 opened opened.frames [] (some row) late late resumed_at []
      ((refl, refl, refl), omega arith) refl (omega arith) reopened (omega arith, omega arith, refl)
      (omega arith, omega arith, refl) tt (refl, tt) (refl, tt)
