-- ===== src/Logbus/Channel.antt =====
-- internal/logbus/logbus.go: `Event`, and the buffered channel that each subscriber reads.
-- A Go channel panics on a send or a close after it is closed; the model records that in `panicked`.
-- `cursor` is the reader's own resume offset (`?offset`): the total that Subscribe returned, then the
-- offset of the last log event received.
use build_system.Prelude.{ℕ, Bool, true, false, ◌||◌, List, [], ◌∷◌, ◌++◌, Option, length, ltb}
use build_system.Models.Status.{BuildStatus}

-- One constructor for each `Kind`; `offset` is the total buffer length after the chunk.
pub data Event : Type 0 where
  log : List ℕ → ℕ → Event
  status : BuildStatus → Option ℕ → Option ℕ → Event

-- `subBuffer`.
abbrev pub sub_buffer : ℕ
sub_buffer = 64

pub record Chan : Type 0 where
  pub queue : List Event
  pub closed : Bool
  pub panicked : Bool
  pub cursor : ℕ

-- `make(chan Event, subBuffer)` for a reader that is at byte `cur`.
abbrev pub make_chan : ℕ → Chan
make_chan cur = record { queue = []; closed = false; panicked = false; cursor = cur }

-- Whether `case c <- ev` is taken.
abbrev pub has_room : Chan → Bool
has_room c = ltb (length c.queue) sub_buffer

abbrev pub send : Event → Chan → Chan
send ev c = record c { queue = c.queue ++ ev ∷ []; panicked = c.panicked || c.closed }

abbrev pub close_chan : Chan → Chan
close_chan c = record c { closed = true; panicked = c.panicked || c.closed }

-- The reader's `<-c`, and how it moves its resume offset.
abbrev pub advance : Event → ℕ → ℕ
advance (log chunk offset) cursor = offset
advance (status s a b) cursor = cursor

unfoldable pub take_event : List Event → Chan → Chan
take_event [] c = c
take_event (ev ∷ rest) c = record c { queue = rest; cursor = advance ev c.cursor }

unfoldable pub receive : Chan → Chan
unfolding take_event
receive c = take_event c.queue c
