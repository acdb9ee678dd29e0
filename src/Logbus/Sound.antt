-- ===== src/Logbus/Sound.antt =====
-- The invariant of the bus, and how a change to one topic keeps it.
use build_system.Prelude.{
  ℕ, ◌<◌, ◌≡◌, ◌∙◌, ap, subst, refl, List, Option, none, some, update, update_self, ◌==◌, ==_iff,
  if_rule, arith,
}
use build_system.Logbus.{locate, Bus, new_bus, topic_locked, topic_of, at_topic}
use build_system.Logbus.Topic.{Topic}
use build_system.Logbus.Topic.Stream.{Mode}
use build_system.Logbus.Topic.Serve.{IsServing}
use build_system.Logbus.Topic.Steps.{new_topic-IsServing}

-- Each mapped topic serves its build's log `d id`, and no two builds share a topic.
pub record IsSound (m : Mode) (d : ℕ → List ℕ) (b : Bus) : Type 0 where
  pub serving : (id r : ℕ) → b.topics id ≡ some r → IsServing m (d id) (b.heap r)
  pub placed : (id r : ℕ) → b.topics id ≡ some r → r < b.next_topic
  pub apart : (id id' r : ℕ) → b.topics id ≡ some r → b.topics id' ≡ some r → id ≡ id'

pub new_bus-IsSound : (m : Mode) (d : ℕ → List ℕ) → IsSound m d new_bus
new_bus-IsSound m d = record {
  serving = λ id r e. absurd (cc);
  placed = λ id r e. absurd (cc);
  apart = λ id id' r e e'. absurd (cc);
}

-- `topicLocked` leaves a sound bus in which the build has the topic.
abbrev Located : Mode → (ℕ → List ℕ) → ℕ → Bus × ℕ → Type 0
Located m d id p = IsSound m d p.0 × (p.0.topics id ≡ some p.1)

locate-IsSound :
    (m : Mode) (d : ℕ → List ℕ) (b : Bus) (id : ℕ) (o : Option ℕ)
    → b.topics id ≡ o
    → IsSound m d b
    → Located m d id (locate o b id)
unfolding locate
locate-IsSound m d b id (some r) found h = (h, found)
locate-IsSound m d b id none missing h = (
  record {
    serving = λ j r e.
        if_rule (λ t. IsServing m (d j) t) (r == b.next_topic) _ _
          (λ k. new_topic-IsServing m (d j)) (λ k. h.serving j r (ground (arith, e)));
    placed = λ j r e. ground (arith, e, h.placed j r);
    apart = λ i j r e e'. ground (arith, e, e', h.placed i r, h.placed j r, h.apart i j r);
  },
  update_self b.topics id (some b.next_topic),
)

topic_locked-IsSound :
    (m : Mode) (d : ℕ → List ℕ) (b : Bus) (id : ℕ)
    → IsSound m d b
    → Located m d id (topic_locked b id)
unfolding topic_locked
topic_locked-IsSound m d b id h = locate-IsSound m d b id (b.topics id) refl h

-- A change to the build's topic that keeps the topic's invariant keeps the bus sound.
pub at_topic-IsSound :
    (m : Mode) (d : ℕ → List ℕ) (b : Bus) (id : ℕ) (f : Topic → Topic)
    → (IsServing m (d id) (topic_of b id) → IsServing m (d id) (f (topic_of b id)))
    → IsSound m d b
    → IsSound m d (at_topic b id f)
unfolding at_topic topic_of
at_topic-IsSound m d b id f keep h =
    let p = topic_locked b id in
    let (sound, here) = topic_locked-IsSound m d b id h in
    record {
      serving = λ j r e.
          if_rule (λ t. IsServing m (d j) t) (r == p.1) _ _
            (λ k.
              let same = (==_iff r p.1).0 k in
              let mine = sound.apart id j p.1 here (e ∙ ap some same) in
              subst (λ i. IsServing m (d i) (f (p.0.heap p.1))) mine
                (keep (sound.serving id p.1 here)))
            (λ k. sound.serving j r e);
      placed = sound.placed;
      apart = sound.apart;
    }

-- A change to the topic at a place, mapped or already dropped, by a step that keeps the invariant.
pub at_place-IsSound :
    (m : Mode) (d : ℕ → List ℕ) (b : Bus) (r : ℕ) (f : Topic → Topic)
    → ((id : ℕ) (t : Topic) → IsServing m (d id) t → IsServing m (d id) (f t))
    → IsSound m d b
    → IsSound m d (record b { heap = update b.heap r (f (b.heap r)) })
at_place-IsSound m d b r f keep h = record {
  serving = λ j q e.
      if_rule (λ t. IsServing m (d j) t) (q == r) _ _
        (λ k.
          let same = (==_iff q r).0 k in
          keep j (b.heap r) (subst (λ i. IsServing m (d j) (b.heap i)) same (h.serving j q e)))
        (λ k. h.serving j q e);
  placed = h.placed;
  apart = h.apart;
}
