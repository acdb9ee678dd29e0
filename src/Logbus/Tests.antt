-- ===== src/Logbus/Tests.antt =====
-- Runs of the log bus, and the theorems at concrete states.
use build_system.Prelude.{
  ℕ, ◌-◌, ◌≤◌, min, ◌≡◌, refl, List, [], ◌∷◌, slice, arith, if◌then◌else◌, leb,
}
use build_system.Prelude.Int.{pos, negsuc, or_zero}
use build_system.Logbus.{topic_locked, topic_of, at_topic, Bus, new_bus, subscribe, publish_at}
use build_system.Logbus.Topic.{Topic, new_topic, total}
use build_system.Logbus.Topic
use build_system.Logbus.Topic.Stream.{Mode, gapless}
use build_system.Logbus.Topic.Serve.{IsServing}
use build_system.Logbus.Topic.Steps.{new_topic-IsServing, publish-IsServing}
use build_system.Logbus.Topic.Snapshot.{subscribe_joins}
use build_system.Logbus.Sound.{IsSound}
use build_system.Logbus.Reach.{Reach, fresh, next, perform, subscribes, publishes_at, Reach-IsSound}
use build_system.Logbus.Reader.{queued, stream_complete}

-- The durable log of every build: "hello".
abbrev hello : List ℕ
hello = 104 ∷ 101 ∷ 108 ∷ 108 ∷ 111 ∷ []

abbrev logs : ℕ → List ℕ
logs id = hello

-- One reader of build 7, and two overlapping writes.
watched : Bus
unfolding perform subscribe at_topic topic_of topic_locked publish_at Topic.subscribe
    Topic.publish_at Topic.append_tail Topic.retain_tail Topic.publish_log Topic.publish_loop
    Topic.event_size Topic.fan_out Topic.snapshot_from
watched =
    perform
      (perform (perform new_bus (subscribes 7 (pos 0))) (publishes_at 7 (pos 0) (104 ∷ 101 ∷ [])))
      (publishes_at 7 (pos 1) (101 ∷ 108 ∷ 108 ∷ []))

watched_reached : (m : Mode) → Reach m logs watched
unfolding watched
watched_reached m =
    next
      (next (next fresh (subscribes 7 (pos 0)) tt) (publishes_at 7 (pos 0) (104 ∷ 101 ∷ []))
        (omega arith, refl))
      (publishes_at 7 (pos 1) (101 ∷ 108 ∷ 108 ∷ [])) (omega arith, refl)

-- The second write is trimmed to what is new.
watched_bytes : queued ((watched.heap 0).chans 0).queue ≡ 104 ∷ 101 ∷ 108 ∷ 108 ∷ []
unfolding watched
watched_bytes = refl

stream_complete_example :
    (queued ((watched.heap 0).chans 0).queue
      ≡ slice hello
          ((watched.heap 0).chans 0).cursor
          (total (watched.heap 0) - ((watched.heap 0).chans 0).cursor))
    × (((watched.heap 0).chans 0).cursor ≤ total (watched.heap 0))
unfolding watched
stream_complete_example = stream_complete logs 7 0 0 (watched_reached gapless) refl refl

Reach-IsSound_example : IsSound gapless logs watched
Reach-IsSound_example = Reach-IsSound gapless logs (watched_reached gapless)

-- A topic that has "he", after which bytes 3 and 4 arrive first: the gap drops the tail.
abbrev two_bytes : Topic
two_bytes = record new_topic { buf = 104 ∷ 101 ∷ []; capacity = 4096 }

two_bytes-IsServing : IsServing gapless hello two_bytes
unfolding Topic.publish Topic.append_tail Topic.retain_tail Topic.publish_log Topic.publish_loop
two_bytes-IsServing =
    publish-IsServing gapless hello new_topic (104 ∷ 101 ∷ []) (new_topic-IsServing gapless hello)
      (omega arith) refl

subscribe_joins_example :
    let at = min (or_zero (negsuc 4)) (total two_bytes) in
    let reply = (Topic.subscribe two_bytes (negsuc 4)).1 in
    let ch = (Topic.subscribe two_bytes (negsuc 4)).0.chans reply.chan in
    (reply.snapshot ≡ (if leb two_bytes.base at then slice hello at (total two_bytes - at) else []))
    × (reply.cur ≡ total two_bytes)
    × (ch.cursor ≡ reply.cur)
    × (ch.queue ≡ [])
    × (ch.closed ≡ two_bytes.closed)
subscribe_joins_example = subscribe_joins gapless hello two_bytes (negsuc 4) two_bytes-IsServing
