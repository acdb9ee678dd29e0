-- ===== src/Logbus/Topic.antt =====
-- internal/logbus/logbus.go: `topic`, and what each `Bus` method does to one topic. Every method holds
-- the bus's mutex throughout, so each is one step. A subscriber is a number that the topic hands out;
-- `chans` holds its channel for as long as a reader may read it, and `subs` is the map of live ones.
pub mod Tail
pub mod Stream
pub mod Publish
pub mod Serve
pub mod Steps
pub mod Snapshot
use build_system.Prelude.{
  ℕ, zero, suc, ◌+◌, ◌-◌, ◌*◌, min, Bool, true, false, not, ◌&&◌, ◌||◌, List, [], ◌∷◌, ◌++◌, Option,
  none, some, length, take, drop, get_or, keep, contains, update, ltb, leb, ◌==◌, if◌then◌else◌,
}
use build_system.Prelude.Text.{rune_start, rune_floor}
use build_system.Prelude.Int.{ℤ, or_zero}
use build_system.Models.Status.{BuildStatus, terminal}
use build_system.Logbus.Channel.{
  Event, log, status, Chan, make_chan, has_room, send, close_chan, receive,
}

-- `MaxRetainedBytes`.
abbrev pub max_retained : ℕ
max_retained = 262144

-- `maxEventBytes`.
abbrev pub max_event : ℕ
max_event = 65536

pub record Topic : Type 0 where
  pub buf : List ℕ
  pub capacity : ℕ
  pub base : ℕ
  pub subs : List ℕ
  pub closed : Bool
  pub chans : ℕ → Chan
  pub next_chan : ℕ

abbrev pub new_topic : Topic
new_topic = record {
  buf = [];
  capacity = 0;
  base = 0;
  subs = [];
  closed = false;
  chans = λ c. make_chan 0;
  next_chan = 0;
}

abbrev pub total : Topic → ℕ
total t = t.base + length t.buf

-- The growth rule of `appendTail`: the capacity for `need` bytes when `cap(t.buf) < need`.
abbrev grown : ℕ → ℕ → ℕ
grown capacity need =
    let doubled = capacity * 2 in
    let floored = if ltb doubled 4096 then 4096 else doubled in
    let enough = if ltb floored need then need else floored in
    if ltb max_retained enough then max_retained else enough

-- The new contents, for a retention limit: the last `limit` bytes of `buf` and `chunk`.
unfoldable pub retain_tail : ℕ → List ℕ → List ℕ → List ℕ
retain_tail limit buf chunk =
    if leb limit (length chunk)
    then drop (length chunk - limit) chunk
    else if ltb limit (length buf + length chunk)
    then drop (length buf + length chunk - limit) buf ++ chunk
    else buf ++ chunk

unfoldable pub append_tail : Topic → List ℕ → Topic
append_tail t chunk =
    let sum = t.base + length t.buf + length chunk in
    let need = min (length t.buf + length chunk) max_retained in
    let contents = retain_tail max_retained t.buf chunk in
    record t {
      capacity = if ltb t.capacity need then grown t.capacity need else t.capacity;
      buf = contents;
      base = sum - length contents;
    }

-- The bytes of the next event, for an event limit.
unfoldable pub event_size : ℕ → List ℕ → ℕ
event_size limit chunk =
    if ltb limit (length chunk)
    then (let n = rune_floor chunk limit in if n == 0 then limit else n)
    else length chunk

-- `for c := range t.subs { select { case c <- ev: default: delete(t.subs, c); close(c) } }`: each
-- round touches its own channel and key only.
abbrev pub offer : Event → Chan → Chan
offer ev c = if has_room c then send ev c else close_chan c

unfoldable pub fan_out : Topic → Event → Topic
fan_out t ev = record t {
  subs = keep (λ c. has_room (t.chans c)) t.subs;
  chans = λ c. if contains c t.subs then offer ev (t.chans c) else t.chans c;
}

-- `for c := range t.subs { delete(t.subs, c); close(c) }`.
unfoldable pub close_subs : Topic → Topic
close_subs t = record t {
  subs = [];
  chans = λ c. if contains c t.subs then close_chan (t.chans c) else t.chans c;
}

-- The loop of `publishLog` over what is left of the chunk; each round sends at least one byte.
unfoldable pub publish_loop : ℕ → ℕ → Topic → List ℕ → ℕ → Topic
publish_loop zero limit t chunk offset = t
publish_loop (suc fuel) limit t chunk offset =
    let n = event_size limit chunk in
    let next = fan_out t (log (take n chunk) (offset + n)) in
    let rest = publish_loop fuel limit next (drop n chunk) (offset + n) in
    if ltb 0 (length chunk) && ltb 0 (length t.subs) then rest else t

unfoldable pub publish_log : Topic → List ℕ → ℕ → Topic
publish_log t chunk end = publish_loop (length chunk) max_event t chunk (end - length chunk)

-- `Publish` behind `topicLocked`; an empty chunk does not get here.
unfoldable pub publish : Topic → List ℕ → Topic
publish t chunk =
    if t.closed
    then t
    else (let grown_topic = append_tail t chunk in
        publish_log grown_topic chunk (total grown_topic))

-- `PublishAt` for `start ≥ 0` and a chunk that is not empty.
unfoldable pub publish_at : Topic → ℕ → List ℕ → Topic
publish_at t start chunk =
    if t.closed
    then t
    else if ltb (total t) start
    then (let fresh = record (close_subs t) { buf = []; base = start } in
        let filled = append_tail fresh chunk in publish_log filled chunk (total filled))
    else if leb (length chunk) (total t - start)
    then t
    else (let news = drop (total t - start) chunk in
        let filled = append_tail t news in publish_log filled news (total filled))

-- `SeedAt` for `start ≥ 0`.
unfoldable pub seed_at : Topic → ℕ → List ℕ → Topic
seed_at t start bytes =
    if t.closed || leb (start + length bytes) (total t)
    then t
    else append_tail (record t { buf = []; base = start }) bytes

-- The status fan-out drops the event where a channel is full, and keeps the subscriber.
abbrev pub offer_status : Event → Chan → Chan
offer_status ev c = if has_room c then send ev c else c

-- The fan-out loop of `PublishStatus`.
unfoldable pub tell : Topic → Event → Topic
tell t ev = record t {
  chans = λ c. if contains c t.subs then offer_status ev (t.chans c) else t.chans c;
}

-- `PublishStatus`, without the timer that a terminal status starts.
unfoldable pub publish_status : Topic → BuildStatus → Option ℕ → Option ℕ → Topic
publish_status t s started finished =
    let told = tell t (status s started finished) in
    if t.closed then t else if terminal s then close_subs (record told { closed = true }) else told

pub record Subscription : Type 0 where
  pub snapshot : List ℕ
  pub cur : ℕ
  pub chan : ℕ

-- The snapshot of `Subscribe`: nil where the offset predates the retained bytes.
unfoldable pub snapshot_from : Topic → ℤ → List ℕ
snapshot_from t from =
    let at = min (or_zero from) (total t) in if leb t.base at then drop (at - t.base) t.buf else []

unfoldable pub subscribe : Topic → ℤ → Topic × Subscription
subscribe t from =
    let c = make_chan (total t) in
    let reply : Subscription = record {
      snapshot = snapshot_from t from;
      cur = total t;
      chan = t.next_chan;
    } in
    if t.closed
    then (
      record t { chans = update t.chans t.next_chan (close_chan c); next_chan = suc t.next_chan },
      reply,
    )
    else (
      record t {
        chans = update t.chans t.next_chan c;
        next_chan = suc t.next_chan;
        subs = t.next_chan ∷ t.subs;
      },
      reply,
    )

-- The closure that `Subscribe` returns: `delete(t.subs, c); close(c)` if it is still subscribed.
unfoldable pub unsubscribe : Topic → ℕ → Topic
unsubscribe t c =
    if contains c t.subs
    then record t {
      subs = keep (λ d. not (d == c)) t.subs;
      chans = update t.chans c (close_chan (t.chans c));
    }
    else t

-- A reader takes the next event of its channel.
unfoldable pub read_event : Topic → ℕ → Topic
read_event t c = record t { chans = update t.chans c (receive (t.chans c)) }

-- `LogTail` of a topic that exists: the bytes, the total and `ok`.
unfoldable pub log_tail : Topic → ℤ → Option (List ℕ) × ℕ
log_tail t from =
    if ltb (or_zero from) t.base
    then (none, total t)
    else (some (drop (min (or_zero from) (total t) - t.base) t.buf), total t)
