-- ===== src/Logbus/Topic/Steps.antt =====
-- The other methods of the bus keep the topic's invariant: `Publish`, `SeedAt`, `PublishStatus`,
-- `Subscribe`, its unsubscribe closure, and a reader's receive.
use build_system.Prelude.{
  ℕ, ◌+◌, ◌≤◌, ◌≡◌, ◌∙◌, ◌⊎◌, ap, sym, subst, refl, inl, inr, Bool, true, false, List, [], ◌∷◌,
  length, slice, contains, keep, leb, ◌==◌, ==_iff, ◌&&◌, ◌||◌, not, if_rule, arith, if◌then◌else◌,
  contains-keep, Option,
}
use build_system.Prelude.Int.{ℤ}
use build_system.Models.Status.{BuildStatus, terminal}
use build_system.Logbus.Channel.{
  Event, log, status, Chan, make_chan, has_room, close_chan, receive, take_event,
}
use build_system.Logbus.Topic.{
  Topic, new_topic, total, append_tail, close_subs, publish, seed_at, publish_status, tell,
  offer_status, Subscription, subscribe, unsubscribe, read_event,
}
use build_system.Logbus.Topic.Tail.{total-append_tail, append_tail-IsBounded, append_tail-IsTail}
use build_system.Logbus.Topic.Stream.{
  Mode, gapless, ordered, Follows-refl, Streams, Streams-status, IsFlowing, IsDelivering,
}
use build_system.Logbus.Topic.Publish.{IsDelivering-none}
use build_system.Logbus.Topic.Serve.{
  IsServing, SameStore-IsServing, extend-IsServing, close-IsFlowing, close_subs-IsDelivering,
}

pub new_topic-IsServing : (m : Mode) (d : List ℕ) → IsServing m d new_topic
new_topic-IsServing m d = record {
  tail = record { within = omega arith; bytes = refl };
  bounded = omega arith;
  delivering = record {
    flow = λ c. record {
      opened = λ k. refl;
      live = λ k. absurd (cc);
      past = (0, omega arith, Follows-refl m 0);
      calm = refl;
    };
    named = λ c k. absurd (cc);
  };
  quiet = λ k. refl;
}

pub publish-IsServing :
    (m : Mode) (d : List ℕ) (t : Topic) (chunk : List ℕ)
    → IsServing m d t
    → total t + length chunk ≤ length d
    → chunk ≡ slice d (total t) (length chunk)
    → IsServing m d (publish t chunk)
unfolding publish
publish-IsServing m d t chunk h fits same =
    if_rule (IsServing m d) t.closed _ _ (λ over. h)
      λ live. extend-IsServing m d t chunk h.tail h.bounded h.delivering live fits same

Streams-le :
    (d : List ℕ) (at : ℕ) (es : List Event) (e e' : ℕ)
    → e ≤ e'
    → Streams ordered d at es e
    → Streams ordered d at es e'
Streams-le d at [] e e' le s = omega (arith, s, le)
Streams-le d at (log c o ∷ es) e e' le s = (s.0, s.1, s.2, s.3, Streams-le d o es e e' le s.4)
Streams-le d at (status x a b ∷ es) e e' le s = Streams-le d at es e e' le s

-- Who may see the total move with no event: readers that accept gaps, or nobody.
abbrev pub Tolerates : Mode → Topic → Type 0
Tolerates m t = (m ≡ ordered) ⊎ (t.subs ≡ [])

relax-IsDelivering :
    (m : Mode) (d : List ℕ) (t : Topic) (e e' : ℕ)
    → Tolerates m t
    → e ≤ e'
    → IsDelivering m d t e
    → IsDelivering m d t e'
relax-IsDelivering m d t e e' (inr none) le h = IsDelivering-none m d t e e' none h
relax-IsDelivering gapless d t e e' (inl k) le h = absurd (cc)
relax-IsDelivering ordered d t e e' (inl k) le h = record {
  flow = λ c. record {
    opened = (h.flow c).opened;
    live = λ k. Streams-le d _ (t.chans c).queue e e' le ((h.flow c).live k);
    past = (h.flow c).past;
    calm = (h.flow c).calm;
  };
  named = h.named;
}

-- Seeding with stored bytes keeps the invariant, for readers that accept gaps or with no reader.
pub seed_at-IsServing :
    (m : Mode) (d : List ℕ) (t : Topic) (start : ℕ) (bytes : List ℕ)
    → IsServing m d t
    → Tolerates m t
    → start + length bytes ≤ length d
    → bytes ≡ slice d start (length bytes)
    → IsServing m d (seed_at t start bytes)
unfolding seed_at append_tail
seed_at-IsServing m d t start bytes h who fits same =
    if_rule (IsServing m d) (t.closed || leb (start + length bytes) (total t)) _ _ (λ old. h)
      λ fresh.
        let u = record t { buf = []; base = start } in
        let e : start + 0 ≡ start = omega arith in
        let wide =
          relax-IsDelivering m d t (total t) (total (append_tail u bytes)) who
            (ground (arith, total-append_tail u bytes)) h.delivering in
        record {
          tail =
              append_tail-IsTail d u bytes (record { within = omega (arith, fits); bytes = refl })
                (omega (arith, fits)) (same ∙ ap (λ k. slice d k (length bytes)) (sym e));
          bounded =
              append_tail-IsBounded u bytes (record {
                retained = omega arith;
                stored = omega arith;
                capped = h.bounded.capped;
              });
          delivering = record { flow = wide.flow; named = wide.named };
          quiet = λ k. h.quiet k;
        }

told-IsFlowing :
    (m : Mode) (d : List ℕ) (ch : Chan) (subscribed : Bool) (e : ℕ) (s : BuildStatus)
    (a b : Option ℕ)
    → IsFlowing m d ch subscribed e
    → IsFlowing m d (if subscribed then offer_status (status s a b) ch else ch) subscribed e
told-IsFlowing m d ch false e s a b h = h
told-IsFlowing m d ch true e s a b h =
    if_rule (λ c. IsFlowing m d c true e) (has_room ch) _ _
      (λ room. record {
        opened = h.opened;
        live = λ k. Streams-status m d ch.cursor ch.queue e s a b (h.live k);
        past = (h.past.0, h.past.1, Streams-status m d ch.cursor ch.queue _ s a b h.past.2);
        calm = ground (arith, h.opened refl, h.calm);
      })
      λ full. h

tell-IsServing :
    (m : Mode) (d : List ℕ) (t : Topic) (s : BuildStatus) (a b : Option ℕ)
    → IsServing m d t
    → IsServing m d (tell t (status s a b))
unfolding tell
tell-IsServing m d t s a b h = record {
  tail = record { within = h.tail.within; bytes = h.tail.bytes };
  bounded = record {
    retained = h.bounded.retained;
    stored = h.bounded.stored;
    capped = h.bounded.capped;
  };
  delivering = record {
    flow = λ c.
        told-IsFlowing m d (t.chans c) (contains c t.subs) (total t) s a b (h.delivering.flow c);
    named = h.delivering.named;
  };
  quiet = h.quiet;
}

shut-IsServing :
    (m : Mode) (d : List ℕ) (t : Topic)
    → IsServing m d t
    → IsServing m d (close_subs (record t { closed = true }))
unfolding close_subs
shut-IsServing m d t h =
    let cut = close_subs-IsDelivering m d t (total t) (total t) h.delivering in
    record {
      tail = record { within = h.tail.within; bytes = h.tail.bytes };
      bounded = record {
        retained = h.bounded.retained;
        stored = h.bounded.stored;
        capped = h.bounded.capped;
      };
      delivering = record { flow = cut.flow; named = cut.named };
      quiet = λ k. refl;
    }

-- A status event moves no byte; a terminal one leaves no subscriber and a closed topic.
pub publish_status-IsServing :
    (m : Mode) (d : List ℕ) (t : Topic) (s : BuildStatus) (a b : Option ℕ)
    → IsServing m d t
    → IsServing m d (publish_status t s a b)
unfolding publish_status
publish_status-IsServing m d t s a b h =
    let told = tell-IsServing m d t s a b h in
    if_rule (IsServing m d) t.closed _ _ (λ over. h)
      λ live.
        if_rule (IsServing m d) (terminal s) _ (tell t (status s a b))
          (λ last. shut-IsServing m d (tell t (status s a b)) told) λ more. told

put_live :
    (m : Mode) (d : List ℕ) (b subscribed : Bool) (new old : Chan) (e : ℕ)
    → IsFlowing m d new true e
    → IsFlowing m d old subscribed e
    → IsFlowing m d (if b then new else old) (b || subscribed) e
put_live m d true subscribed new old e p q = p
put_live m d false subscribed new old e p q = q

put_gone :
    (m : Mode) (d : List ℕ) (b subscribed : Bool) (new old : Chan) (e : ℕ)
    → IsFlowing m d new false e
    → IsFlowing m d old subscribed e
    → IsFlowing m d (if b then new else old) (subscribed && not b) e
put_gone m d true true new old e p q = p
put_gone m d true false new old e p q = p
put_gone m d false true new old e p q = q
put_gone m d false false new old e p q = q

make_chan-IsFlowing :
    (m : Mode) (d : List ℕ) (e : ℕ) → e ≤ length d → IsFlowing m d (make_chan e) true e
make_chan-IsFlowing m d e le = record {
  opened = λ k. refl;
  live = λ k. Follows-refl m e;
  past = (e, le, Follows-refl m e);
  calm = refl;
}

-- Subscribing opens a stream from the total; on a closed topic the new channel is closed at once.
pub subscribe-IsServing :
    (m : Mode) (d : List ℕ) (t : Topic) (from : ℤ)
    → IsServing m d t
    → IsServing m d (subscribe t from).0
unfolding subscribe
subscribe-IsServing m d t from h =
    let new = make_chan-IsFlowing m d (total t) h.tail.within in
    if_rule (λ (p : Topic × Subscription). IsServing m d p.0) t.closed _ _
      (λ over.
        SameStore-IsServing m d _ t (refl, refl, refl, refl) h.tail h.bounded
          (record {
            flow = λ c.
                let nobody : contains c t.subs ≡ false = ap (contains c) (h.quiet over) in
                if_rule (λ ch. IsFlowing m d ch (contains c t.subs) (total t)) (c == t.next_chan) _
                  _
                  (λ e.
                    subst (λ b. IsFlowing m d (close_chan (make_chan (total t))) b (total t))
                      (sym nobody) (close-IsFlowing m d _ true (total t) (total t) new))
                  (λ e. h.delivering.flow c);
            named = λ c k. omega (arith, h.delivering.named c k);
          })
          h.quiet)
      λ live.
        SameStore-IsServing m d _ t (refl, refl, refl, refl) h.tail h.bounded
          (record {
            flow = λ c.
                put_live m d (c == t.next_chan) (contains c t.subs) _ _ (total t) new
                  (h.delivering.flow c);
            named = λ c k. ground (arith, h.delivering.named c);
          })
          λ k. absurd (cc (live, k))

pub unsubscribe-IsServing :
    (m : Mode) (d : List ℕ) (t : Topic) (c : ℕ) → IsServing m d t → IsServing m d (unsubscribe t c)
unfolding unsubscribe
unsubscribe-IsServing m d t c h =
    if_rule (IsServing m d) (contains c t.subs) _ _
      (λ found.
        let was = subst (λ b. IsFlowing m d (t.chans c) b (total t)) found (h.delivering.flow c) in
        SameStore-IsServing m d _ t (refl, refl, refl, refl) h.tail h.bounded
          (record {
            flow = λ j. rw (contains-keep (λ x. not (x == c)) j t.subs) (
                put_gone m d (j == c) (contains j t.subs) _ (t.chans j) (total t)
                  (close-IsFlowing m d (t.chans c) true (total t) (total t) was)
                  (h.delivering.flow j));
            named = λ j k.
                ground (arith, h.delivering.named j, contains-keep (λ x. not (x == c)) j t.subs);
          })
          λ k. ap (keep (λ x. not (x == c))) (h.quiet k))
      (λ missing. h)

take_event-IsFlowing :
    (m : Mode) (d : List ℕ) (ch : Chan) (subscribed : Bool) (e : ℕ) (es : List Event)
    → ch.queue ≡ es
    → IsFlowing m d ch subscribed e
    → IsFlowing m d (take_event es ch) subscribed e
unfolding take_event
take_event-IsFlowing m d ch subscribed e [] q h = h
take_event-IsFlowing m d ch subscribed e (log chunk offset ∷ es) q h = record {
  opened = h.opened;
  live = λ k. (subst (λ l. Streams m d ch.cursor l e) q (h.live k)).4;
  past = (h.past.0, h.past.1, (subst (λ l. Streams m d ch.cursor l h.past.0) q h.past.2).4);
  calm = h.calm;
}
take_event-IsFlowing m d ch subscribed e (status s a b ∷ es) q h = record {
  opened = h.opened;
  live = λ k. subst (λ l. Streams m d ch.cursor l e) q (h.live k);
  past = (h.past.0, h.past.1, subst (λ l. Streams m d ch.cursor l h.past.0) q h.past.2);
  calm = h.calm;
}

-- A reader that takes its next event moves past exactly the bytes of that event.
pub read_event-IsServing :
    (m : Mode) (d : List ℕ) (t : Topic) (c : ℕ) → IsServing m d t → IsServing m d (read_event t c)
unfolding read_event receive
read_event-IsServing m d t c h =
    SameStore-IsServing m d _ t (refl, refl, refl, refl) h.tail h.bounded
      (record {
        flow = λ j.
            if_rule (λ ch. IsFlowing m d ch (contains j t.subs) (total t)) (j == c) _ _
              (λ e.
                let here = (==_iff j c).0 e in
                subst
                  (λ i.
                    IsFlowing m d (take_event (t.chans i).queue (t.chans i)) (contains j t.subs)
                      (total t))
                  here
                  (take_event-IsFlowing m d (t.chans j) (contains j t.subs) (total t)
                    (t.chans j).queue refl (h.delivering.flow j)))
              (λ e. h.delivering.flow j);
        named = h.delivering.named;
      })
      h.quiet
