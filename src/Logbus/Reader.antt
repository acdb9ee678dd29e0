-- ===== src/Logbus/Reader.antt =====
-- What a reader gets: the snapshot, LogTail, and the events of its channel, against the durable log.
use build_system.Prelude.{
  ℕ, ◌+◌, ◌-◌, ◌≤◌, min, ◌≡◌, ◌∙◌, ap, ap₂, sym, inl, inr, true, false, List, [], ◌∷◌, ◌++◌, some,
  length, slice, contains, Option-cases, slice-append, arith,
}
use build_system.Prelude.Int.{ℤ, or_zero}
use build_system.Logbus.Channel.{Event, log, status}
use build_system.Logbus.{Bus, log_tail, tail_of}
use build_system.Logbus.Topic.{total}
use build_system.Logbus.Topic.Stream.{Mode, gapless, Streams}
use build_system.Logbus.Reach.{Reach, Reach-IsSound}
use build_system.Logbus.Topic.Snapshot.{tail_lem}

-- The log bytes that a reader will get from its queue.
abbrev pub queued : List Event → List ℕ
queued [] = []
queued (log chunk offset ∷ es) = chunk ++ queued es
queued (status s a b ∷ es) = queued es

queued-Streams :
    (d : List ℕ) (at : ℕ) (es : List Event) (end : ℕ)
    → Streams gapless d at es end
    → (queued es ≡ slice d at (end - at)) × (at ≤ end)
queued-Streams d at [] end s = (ap (slice d at) {x = 0} (omega (arith, s)), omega (arith, s))
queued-Streams d at (log chunk offset ∷ es) end s =
    let (same, le) = queued-Streams d offset es end s.4 in
    let here : chunk ≡ slice d at (length chunk) =
      s.2 ∙ ap (λ k. slice d k (length chunk)) (sym s.1) in
    let there : offset ≡ at + length chunk = omega (arith, s.1, s.3) in
    (
      ap₂ ◌++◌ here (same ∙ ap (λ k. slice d k (end - offset)) there)
          ∙ slice-append d at (length chunk) (end - offset)
          ∙ ap (slice d at) (omega (arith, there, le)),
      omega (arith, there, le),
    )
queued-Streams d at (status x a b ∷ es) end s = queued-Streams d at es end s

-- In any reachable bus in which no seed moves a watched topic, a live subscriber's queue holds exactly
-- the bytes of the build's log from the reader's offset to the topic's total: none is missing, none is
-- there twice.
pub stream_complete :
    (d : ℕ → List ℕ) {b : Bus} (id r c : ℕ)
    → Reach gapless d b
    → b.topics id ≡ some r
    → contains c (b.heap r).subs ≡ true
    → (queued ((b.heap r).chans c).queue
        ≡ slice (d id) ((b.heap r).chans c).cursor (total (b.heap r) - ((b.heap r).chans c).cursor))
      × (((b.heap r).chans c).cursor ≤ total (b.heap r))
stream_complete d {b} id r c run here sub =
    let s = (Reach-IsSound gapless d run).serving id r here in
    queued-Streams (d id) ((b.heap r).chans c).cursor ((b.heap r).chans c).queue (total (b.heap r))
      ((s.delivering.flow c).live sub)

-- No send on a closed channel and no second close, in any reachable bus.
pub no_panic :
    (m : Mode) (d : ℕ → List ℕ) {b : Bus} (id r c : ℕ)
    → Reach m d b
    → b.topics id ≡ some r
    → ((b.heap r).chans c).panicked ≡ false
no_panic m d id r c run here = (((Reach-IsSound m d run).serving id r here).delivering.flow c).calm

-- At most 256 KiB of a build's log are retained, in a backing array of at most 256 KiB.
pub memory_bounded :
    (m : Mode) (d : ℕ → List ℕ) {b : Bus} (id r : ℕ)
    → Reach m d b
    → b.topics id ≡ some r
    → (length (b.heap r).buf ≤ (b.heap r).capacity) × ((b.heap r).capacity ≤ 262144)
memory_bounded m d id r run here =
    let s = (Reach-IsSound m d run).serving id r here in (s.bounded.stored, s.bounded.capped)

-- `LogTail` of a reachable bus returns exactly the log's bytes from the requested offset, clamped to
-- the total, up to the total, which lies within the log.
pub log_tail_lem :
    (m : Mode) (d : ℕ → List ℕ) {b : Bus} (id : ℕ) (from : ℤ) (bytes : List ℕ) (cur : ℕ)
    → Reach m d b
    → log_tail b id from ≡ (some bytes, cur)
    → (bytes ≡ slice (d id) (min (or_zero from) cur) (cur - min (or_zero from) cur))
      × (cur ≤ length (d id))
unfolding log_tail
log_tail_lem m d {b} id from bytes cur run e = elim (Option-cases (b.topics id)) [
  | inl missing ↦ cc (e, ap (λ o. tail_of o b from) missing)
  | inr (r, here) ↦
      tail_lem m (d id) (b.heap r) from bytes cur ((Reach-IsSound m d run).serving id r here)
        (sym (ap (λ o. tail_of o b from) here) ∙ e)
]
