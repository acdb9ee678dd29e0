-- ===== src/Logbus/Reach.antt =====
-- Every state of the bus: any sequence of method calls, reads, unsubscribes and timers, in which each
-- write carries bytes of the builds' durable logs at their offsets.
use build_system.Prelude.{
  ℕ, ◌+◌, ◌≤◌, ◌≡◌, not, ◌&&◌, List, Option, length, slice, ◌==◌, if_rule, arith,
}
use build_system.Prelude.Int.{ℤ, pos, negsuc}
use build_system.Models.Status.{BuildStatus, terminal}
use build_system.Logbus.{
  holds_place, Bus, Timer, new_bus, topic_of, subscribe, unsubscribe, read_event, publish,
  publish_at, publish_status, fire, seed_at,
}
use build_system.Logbus.Topic.{Topic, new_topic, total}
use build_system.Logbus.Topic
use build_system.Logbus.Topic.Stream.{Mode}
use build_system.Logbus.Sound.{IsSound, new_bus-IsSound, at_topic-IsSound, at_place-IsSound}
use build_system.Logbus.Topic.Serve.{publish_at-IsServing}
use build_system.Logbus.Topic.Steps.{
  publish-IsServing, Tolerates, seed_at-IsServing, publish_status-IsServing, subscribe-IsServing,
  unsubscribe-IsServing, read_event-IsServing,
}

-- One step of the bus: a method call, a reader's receive, or a timer.
pub data Call : Type 0 where
  subscribes : ℕ → ℤ → Call
  unsubscribes reads : ℕ → ℕ → Call
  publishes : ℕ → List ℕ → Call
  publishes_at seeds_at : ℕ → ℤ → List ℕ → Call
  reports : ℕ → BuildStatus → Option ℕ → Option ℕ → Call
  fires : Timer → Call

unfoldable pub perform : Bus → Call → Bus
perform b (subscribes id from) = (subscribe b id from).0
perform b (unsubscribes r c) = unsubscribe b r c
perform b (reads r c) = read_event b r c
perform b (publishes id chunk) = publish b id chunk
perform b (publishes_at id start chunk) = publish_at b id start chunk
perform b (seeds_at id start bytes) = (seed_at b id start bytes).0
perform b (reports id s started finished) = publish_status b id s started finished
perform b (fires timer) = fire b timer

-- The bytes are those of the log from `start` on.
abbrev pub At : List ℕ → ℤ → List ℕ → Type 0
At log (negsuc n) bytes = Unit {0}
At log (pos start) bytes =
    (start + length bytes ≤ length log) × (bytes ≡ slice log start (length bytes))

-- What a caller owes: written bytes stand at their offsets of the build's log `d id`; a seed is silent,
-- so where readers must see no gap it comes before them.
abbrev pub Agrees : Mode → (ℕ → List ℕ) → Bus → Call → Type 0
Agrees m d b (publishes id chunk) = At (d id) (pos (total (topic_of b id))) chunk
Agrees m d b (publishes_at id start chunk) = At (d id) start chunk
Agrees m d b (seeds_at id start bytes) = At (d id) start bytes × Tolerates m (topic_of b id)
Agrees m d b _ = Unit {0}

pub data Reach (m : Mode) (d : ℕ → List ℕ) : Bus → Type 0 where
  fresh : Reach m d new_bus
  next : {b : Bus} → Reach m d b → (c : Call) → Agrees m d b c → Reach m d (perform b c)

module _ (m : Mode) (d : ℕ → List ℕ) (b : Bus) (h : IsSound m d b) where
  publish-IsSound :
      (id : ℕ) (chunk : List ℕ)
      → At (d id) (pos (total (topic_of b id))) chunk
      → IsSound m d (publish b id chunk)
  unfolding publish
  publish-IsSound id chunk a =
      if_rule (IsSound m d) (length chunk == 0) _ _ (λ e. h)
        λ e.
          at_topic-IsSound m d b id (λ t. Topic.publish t chunk)
            (λ s. publish-IsServing m (d id) (topic_of b id) chunk s a.0 a.1) h

  publish_at-IsSound :
      (id : ℕ) (start : ℤ) (chunk : List ℕ)
      → At (d id) start chunk
      → IsSound m d (publish_at b id start chunk)
  unfolding publish_at
  publish_at-IsSound id (negsuc n) chunk a = h
  publish_at-IsSound id (pos start) chunk a =
      if_rule (IsSound m d) (length chunk == 0) _ _ (λ e. h)
        λ e.
          at_topic-IsSound m d b id (λ t. Topic.publish_at t start chunk)
            (λ s. publish_at-IsServing m (d id) (topic_of b id) start chunk s a.0 a.1) h

  seed_at-IsSound :
      (id : ℕ) (start : ℤ) (bytes : List ℕ)
      → At (d id) start bytes
      → Tolerates m (topic_of b id)
      → IsSound m d (seed_at b id start bytes).0
  unfolding seed_at
  seed_at-IsSound id (negsuc n) bytes a who = at_topic-IsSound m d b id (λ t. t) (λ s. s) h
  seed_at-IsSound id (pos start) bytes a who =
      at_topic-IsSound m d b id (λ t. Topic.seed_at t start bytes)
        (λ s. seed_at-IsServing m (d id) (topic_of b id) start bytes s who a.0 a.1) h

  publish_status-IsSound :
      (id : ℕ) (s : BuildStatus) (x y : Option ℕ) → IsSound m d (publish_status b id s x y)
  unfolding publish_status
  publish_status-IsSound id s x y =
      let told =
        at_topic-IsSound m d b id (λ t. Topic.publish_status t s x y)
          (publish_status-IsServing m (d id) (topic_of b id) s x y) h in
      if_rule (IsSound m d) (terminal s && not (topic_of b id).closed) _ _
        (λ e. record { serving = told.serving; placed = told.placed; apart = told.apart }) λ e. told

  fire-IsSound : (timer : Timer) → IsSound m d (fire b timer)
  unfolding fire
  fire-IsSound timer =
      if_rule (IsSound m d) (holds_place (b.topics timer.build) timer.place) _ _
        (λ e. record {
          serving = λ j r k. h.serving j r (ground (arith, k));
          placed = λ j r k. h.placed j r (ground (arith, k));
          apart = λ i j r k l. h.apart i j r (ground (arith, k)) (ground (arith, l));
        })
        λ e. h

  perform-IsSound : (c : Call) → Agrees m d b c → IsSound m d (perform b c)
  unfolding perform subscribe unsubscribe read_event
  perform-IsSound (subscribes id from) a =
      at_topic-IsSound m d b id (λ t. (Topic.subscribe t from).0)
        (subscribe-IsServing m (d id) (topic_of b id) from) h
  perform-IsSound (unsubscribes r c) a =
      at_place-IsSound m d b r (λ t. Topic.unsubscribe t c)
        (λ id t. unsubscribe-IsServing m (d id) t c) h
  perform-IsSound (reads r c) a =
      at_place-IsSound m d b r (λ t. Topic.read_event t c)
        (λ id t. read_event-IsServing m (d id) t c) h
  perform-IsSound (publishes id chunk) a = publish-IsSound id chunk a
  perform-IsSound (publishes_at id start chunk) a = publish_at-IsSound id start chunk a
  perform-IsSound (seeds_at id start bytes) a = seed_at-IsSound id start bytes a.0 a.1
  perform-IsSound (reports id s x y) a = publish_status-IsSound id s x y
  perform-IsSound (fires timer) a = fire-IsSound timer

-- Every reachable bus is sound: whatever the interleaving of writers, readers, status reports and
-- timers, each build's topic serves exactly that build's durable log.
pub Reach-IsSound : (m : Mode) (d : ℕ → List ℕ) {b : Bus} → Reach m d b → IsSound m d b
Reach-IsSound m d fresh = new_bus-IsSound m d
Reach-IsSound m d (next {b} r c a) = perform-IsSound m d b (Reach-IsSound m d r) c a
