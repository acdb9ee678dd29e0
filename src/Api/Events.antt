-- ===== src/Api/Events.antt =====
-- internal/api/api.go, handleBuildEvents and storedTail: one subscriber's stream of a build's log and
-- status. A view is what the store answers at one step, an input what `select` receives.
pub mod Delivery
pub mod Loop
pub mod Resume
pub mod Complete
pub mod Wire
use build_system.Prelude.{
  ℕ, ◌+◌, ◌-◌, min, String, Bool, true, false, not, ◌&&◌, List, [], ◌∷◌, ◌++◌, Option, none, some,
  length, drop, slice, ltb, leb, if◌then◌else◌,
}
use build_system.Prelude.Int.{ℤ, pos, negsuc}
use build_system.Models.Status.{BuildStatus, terminal}
use build_system.Logbus.Channel.{Event, log, status}

-- The fields of `GetBuildSummary` that the stream sends.
pub record Summary : Type 0 where
  pub state : BuildStatus
  pub started_at : Option ℕ
  pub finished_at : Option ℕ
  pub agent : String
  pub executor : String

-- The length, and the stored bytes at a later instant; either read may fail.
pub data LogRead : Type 0 where
  unread : LogRead
  counted : ℕ → LogRead
  read : ℕ → List ℕ → LogRead

pub record View : Type 0 where
  pub row : Option Summary
  pub stored : LogRead

pub data Input : Type 0 where
  done tick closes : Input
  receives : Event → Input

-- The calls that write: what writeLog and writeStatus are given. Wire has what the client reads of them.
pub data Frame : Type 0 where
  ping : Frame
  log_frame : List ℕ → ℕ → Frame
  status_frame : BuildStatus → Option ℕ → Option ℕ → String → String → Frame

-- The handler's variables, what it has written, and whether it has returned.
pub record Stream : Type 0 where
  pub sent : ℕ
  pub owner : Summary
  pub frames : List Frame
  pub ended : Bool

-- A request's header or query value: absent, not a number, or a number.
pub data Field : Type 0 where
  absent malformed : Field
  number : ℤ → Field

abbrev pub nonnegative : Field → ℕ
nonnegative absent = 0
nonnegative malformed = 0
nonnegative (number (pos n)) = n
nonnegative (number (negsuc n)) = 0

-- Last-Event-ID, or else the query's offset.
pub first_offset : Field → Field → ℕ
first_offset absent query = nonnegative query
first_offset malformed query = 0
first_offset (number n) query = nonnegative (number n)

abbrev pub write_frame : Frame → Stream → Stream
write_frame f s = record s { frames = s.frames ++ f ∷ [] }

abbrev pub finish : Stream → Stream
finish s = record s { ended = true }

-- `storedTail`: the bytes past the offset, and none on a failed read.
unfoldable pub stored_tail : LogRead → ℕ → Option (List ℕ)
stored_tail unread sent = none
stored_tail (counted n) sent = if leb n sent then some [] else none
stored_tail (read n l) sent = if leb n sent then some [] else some (slice l sent (n - sent))

-- What `backfill` does with the tail; the flag is its result.
unfoldable pub fill : Option (List ℕ) → Stream → Stream × Bool
fill none s = (s, false)
fill (some []) s = (s, true)
fill (some (b ∷ tail)) s =
    let end = s.sent + length (b ∷ tail) in
    (write_frame (log_frame (b ∷ tail) end) (record s { sent = end }), true)

abbrev pub backfill : View → Stream → Stream × Bool
backfill v s = fill (stored_tail v.stored s.sent) s

-- The write of the bytes past `sent`, for an event that starts at or before it. The start of the event
-- is `offset - length chunk`.
unfoldable pub deliver : List ℕ → ℕ → Stream → Stream
deliver chunk offset s =
    if leb offset (s.sent + length chunk) && ltb s.sent offset
    then write_frame (log_frame (drop (s.sent + length chunk - offset) chunk) offset)
        (record s { sent = offset })
    else s

abbrev pub after_gap : List ℕ → ℕ → Stream × Bool → Stream
after_gap chunk offset (s, ok) = if ok then deliver chunk offset s else finish s

-- The case of a log event.
unfoldable pub receive_log : View → List ℕ → ℕ → Stream → Stream
receive_log v chunk offset s =
    let gap = ltb (s.sent + length chunk) offset in
    if leb offset s.sent
    then s
    else after_gap chunk offset (if gap then backfill v s else (s, true))

abbrev pub owner_or : Option Summary → Summary → Summary
owner_or none b = b
owner_or (some owner) b = owner

-- `writeStatus`, with the owner's names.
abbrev pub write_status : BuildStatus → Option ℕ → Option ℕ → Stream → Stream
write_status st started finished s =
    write_frame (status_frame st started finished s.owner.agent s.owner.executor) s

abbrev pub after_fill : View → BuildStatus → Option ℕ → Option ℕ → Stream × Bool → Stream
after_fill v st started finished (s, ok) =
    let told = write_status st started finished (record s { owner = owner_or v.row s.owner }) in
    if ok then (if terminal st then finish told else told) else finish s

-- The case of a status event.
unfoldable pub receive_status : View → BuildStatus → Option ℕ → Option ℕ → Stream → Stream
receive_status v st started finished s =
    after_fill v st started finished (if terminal st then backfill v s else (s, true))

abbrev pub report : Summary → Stream × Bool → Stream
report b (s, ok) =
    if ok then write_status b.state b.started_at b.finished_at (record s { owner = b }) else s

-- The channel was closed: the recorded state is reported if it is terminal.
unfoldable pub on_close : View → Option Summary → Stream → Stream
on_close v none s = finish s
on_close v (some b) s = finish (if terminal b.state then report b (backfill v s) else s)

unfoldable pub on_input : View → Input → Stream → Stream
on_input v done s = finish s
on_input v tick s = write_frame ping s
on_input v closes s = on_close v v.row s
on_input v (receives (log chunk offset)) s = receive_log v chunk offset s
on_input v (receives (status st started finished)) s = receive_status v st started finished s

-- The loop, over what it receives and the store's answers.
unfoldable pub run : List (View × Input) → Stream → Stream
run [] s = s
run ((v, i) ∷ is) s = if s.ended then s else run is (on_input v i s)

abbrev pub replayed : List ℕ → ℕ → Stream → Stream
replayed [] total s = s
replayed (b ∷ bytes) total s = write_frame (log_frame (b ∷ bytes) total) s

-- The start of the stream, when the length and the replay were read.
unfoldable pub begin : View → Summary → ℕ → ℕ → List ℕ → Stream
begin last b from total l =
    let start = min from total in
    let s : Stream = record { sent = total; owner = b; frames = []; ended = false } in
    let replay = slice l start (total - start) in
    if terminal b.state
    then finish (report b (backfill last (replayed replay total s)))
    else replayed replay total (write_status b.state b.started_at b.finished_at s)

abbrev pub begin_read : View → Summary → ℕ → LogRead → Option Stream
begin_read last b from unread = none
begin_read last b from (counted n) = none
begin_read last b from (read n l) = some (begin last b from n l)

abbrev pub begin_or : View → Option Summary → ℕ → LogRead → Option Stream
begin_or last none from stored = none
begin_or last (some b) from stored = begin_read last b from stored

-- The second read of the row, after subscribing, which a terminal build does not make.
abbrev pub fresh_row : Option Summary → Option Summary → Option Summary
fresh_row none later = none
fresh_row (some b) later = if terminal b.state then some b else later

-- The handler up to its loop: the row, the row again and the log after subscribing, and the last read.
-- None where a read fails: the response then ends without a frame.
unfoldable pub open_stream : ℕ → Option Summary → View → View → Option Stream
open_stream from first view last = begin_or last (fresh_row first view.row) from view.stored
