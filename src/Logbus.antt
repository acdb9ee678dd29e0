-- ===== src/Logbus.antt =====
-- internal/logbus/logbus.go: `Bus`. Each method holds the mutex from its first to its last line, so a
-- method is one step of the state. Topics are pointers: `topics` maps a build to a place in `heap`, so
-- that the timer of a finished build can tell its own topic from a later one of the same build.
-- Channel has the subscriber's channel, Topic what each method does to one topic, and the modules
-- below both the proofs.
pub mod Channel
pub mod Topic
pub mod Sound
pub mod Reach
pub mod Reader
mod Tests
use build_system.Prelude.{
  ℕ, suc, Bool, true, false, not, ◌&&◌, List, [], ◌∷◌, Option, none, some, length, update, ltb,
  ◌==◌, if◌then◌else◌,
}
use build_system.Prelude.Int.{ℤ, pos, negsuc}
use build_system.Models.Status.{BuildStatus, terminal}
use Topic.{Subscription, new_topic, total}

pub record Timer : Type 0 where
  pub build : ℕ
  pub place : ℕ

pub record Bus : Type 0 where
  pub topics : ℕ → Option ℕ
  pub heap : ℕ → Topic.Topic
  pub next_topic : ℕ
  pub timers : List Timer

-- `New`.
abbrev pub new_bus : Bus
new_bus = record { topics = λ id. none; heap = λ r. new_topic; next_topic = 0; timers = [] }

-- `topicLocked`: the bus that has the topic, and its place.
locate : Option ℕ → Bus → ℕ → Bus × ℕ
locate (some r) b id = (b, r)
locate none b id = (
  record b {
    topics = update b.topics id (some b.next_topic);
    heap = update b.heap b.next_topic new_topic;
    next_topic = suc b.next_topic;
  },
  b.next_topic,
)

pub topic_locked : Bus → ℕ → Bus × ℕ
unfolding locate
topic_locked b id = locate (b.topics id) b id

-- The topic that a method on `id` works on.
pub topic_of : Bus → ℕ → Topic.Topic
unfolding topic_locked
topic_of b id = let (b', r) = topic_locked b id in b'.heap r

pub at_topic : Bus → ℕ → (Topic.Topic → Topic.Topic) → Bus
unfolding topic_locked
at_topic b id f =
    let (b', r) = topic_locked b id in record b' { heap = update b'.heap r (f (b'.heap r)) }

pub subscribe : Bus → ℕ → ℤ → Bus × Subscription
subscribe b id from =
    (at_topic b id (λ t. (Topic.subscribe t from).0), (Topic.subscribe (topic_of b id) from).1)

-- The closure that `Subscribe` returns keeps the topic's pointer, and works after the topic is dropped.
pub unsubscribe : Bus → ℕ → ℕ → Bus
unsubscribe b r c = record b { heap = update b.heap r (Topic.unsubscribe (b.heap r) c) }

-- A reader takes an event from the channel that `Subscribe` gave it.
pub read_event : Bus → ℕ → ℕ → Bus
read_event b r c = record b { heap = update b.heap r (Topic.read_event (b.heap r) c) }

pub publish : Bus → ℕ → List ℕ → Bus
publish b id chunk = if length chunk == 0 then b else at_topic b id (λ t. Topic.publish t chunk)

-- `Length`.
length_of : Option ℕ → Bus → Option ℕ
length_of none b = none
length_of (some r) b = some (total (b.heap r))

pub topic_length : Bus → ℕ → Option ℕ
unfolding length_of
topic_length b id = length_of (b.topics id) b

pub publish_at : Bus → ℕ → ℤ → List ℕ → Bus
publish_at b id (negsuc n) chunk = b
publish_at b id (pos start) chunk =
    if length chunk == 0 then b else at_topic b id (λ t. Topic.publish_at t start chunk)

-- A terminal status starts the timer that drops the topic after `RetainAfterClose`.
pub publish_status : Bus → ℕ → BuildStatus → Option ℕ → Option ℕ → Bus
publish_status b id s started finished =
    let told = at_topic b id (λ t. Topic.publish_status t s started finished) in
    if terminal s && not (topic_of b id).closed
    then record told { timers = record { build = id; place = (topic_locked b id).1 } ∷ told.timers }
    else told

-- The timer's function: the topic is dropped only if the build still has this very one.
holds_place : Option ℕ → ℕ → Bool
holds_place none r = false
holds_place (some q) r = q == r

pub fire : Bus → Timer → Bus
unfolding holds_place
fire b timer =
    if holds_place (b.topics timer.build) timer.place
    then record b { topics = update b.topics timer.build none }
    else b

-- `SeedAt`, with the total that it returns.
pub seed_at : Bus → ℕ → ℤ → List ℕ → Bus × ℕ
seed_at b id (negsuc n) bytes = (at_topic b id (λ t. t), total (topic_of b id))
seed_at b id (pos start) bytes = (
  at_topic b id (λ t. Topic.seed_at t start bytes),
  total (Topic.seed_at (topic_of b id) start bytes),
)

-- `Seed`.
pub seed : Bus → ℕ → List ℕ → Bus × ℕ
seed b id bytes = seed_at b id (pos 0) bytes

-- `LogTail`: no bytes and the total 0 where there is no topic.
tail_of : Option ℕ → Bus → ℤ → Option (List ℕ) × ℕ
tail_of none b from = (none, 0)
tail_of (some r) b from = Topic.log_tail (b.heap r) from

pub log_tail : Bus → ℕ → ℤ → Option (List ℕ) × ℕ
unfolding tail_of
log_tail b id from = tail_of (b.topics id) b from

-- `Live`.
is_open : Option ℕ → Bus → Bool
is_open none b = false
is_open (some r) b = not (b.heap r).closed

pub live : Bus → ℕ → Bool
unfolding is_open
live b id = is_open (b.topics id) b
