-- ===== src/Logbus/Topic/Stream.antt =====
-- What is in flight to each subscriber: the log's bytes from the reader's offset, in order, once.
use build_system.Prelude.Text.{rune_floor}
use build_system.Prelude.{
  ℕ, zero, suc, ◌+◌, ◌≤◌, ◌<◌, ◌≡◌, refl, inl, inr, Option, Bool, true, false, ◌&&◌, List, [], ◌∷◌,
  ◌++◌, length, slice, contains, contains-keep, Bool-cases, arith, if◌then◌else◌,
}
use build_system.Models.Status.{BuildStatus}
use build_system.Logbus.Channel.{Event, log, status, Chan, has_room}
use build_system.Logbus.Topic.{Topic, event_size, fan_out, offer}

-- Whether an event may start past the end of the one before it (a silent SeedAt moves the total), or
-- starts exactly there.
pub data Mode : Type 0 where
  gapless ordered : Mode

abbrev pub Follows : Mode → ℕ → ℕ → Type 0
Follows gapless a b = a ≡ b
Follows ordered a b = a ≤ b

pub Follows-refl : (m : Mode) (a : ℕ) → Follows m a a
Follows-refl gapless a = refl
Follows-refl ordered a = omega arith

-- The queued events carry bytes of `d` at their absolute offsets, in order and without overlap, for a
-- reader that has the bytes before `at`; they end at `end`.
abbrev pub Streams : Mode → List ℕ → ℕ → List Event → ℕ → Type 0
Streams m d at [] end = Follows m at end
Streams m d at (log chunk offset ∷ es) end =
    (start : ℕ) × Follows m at start
    × (chunk ≡ slice d start (length chunk))
    × (offset ≡ start + length chunk)
    × Streams m d offset es end
Streams m d at (status s a b ∷ es) end = Streams m d at es end

pub Streams-log :
    (m : Mode) (d : List ℕ) (at : ℕ) (es : List Event) (end : ℕ) (chunk : List ℕ)
    → Streams m d at es end
    → chunk ≡ slice d end (length chunk)
    → Streams m d at (es ++ log chunk (end + length chunk) ∷ []) (end + length chunk)
Streams-log m d at [] end chunk s h = (end, s, h, refl, Follows-refl m (end + length chunk))
Streams-log m d at (log c o ∷ es) end chunk s h =
    (s.0, s.1, s.2, s.3, Streams-log m d o es end chunk s.4 h)
Streams-log m d at (status x a b ∷ es) end chunk s h = Streams-log m d at es end chunk s h

pub Streams-status :
    (m : Mode) (d : List ℕ) (at : ℕ) (es : List Event) (end : ℕ) (x : BuildStatus) (a b : Option ℕ)
    → Streams m d at es end
    → Streams m d at (es ++ status x a b ∷ []) end
Streams-status m d at [] end x a b s = s
Streams-status m d at (log c o ∷ es) end x a b s =
    (s.0, s.1, s.2, s.3, Streams-status m d o es end x a b s.4)
Streams-status m d at (status y k l ∷ es) end x a b s = Streams-status m d at es end x a b s

-- A channel of a reader of `d`: while it is subscribed it is open and streams up to `end`; dropped or
-- not it streams up to some offset of the log; no send or close ever met it closed.
pub record IsFlowing (m : Mode) (d : List ℕ) (c : Chan) (subscribed : Bool) (end : ℕ) : Type 0 where
  pub opened : subscribed ≡ true → c.closed ≡ false
  pub live : subscribed ≡ true → Streams m d c.cursor c.queue end
  pub past : (e : ℕ) × (e ≤ length d) × Streams m d c.cursor c.queue e
  pub calm : c.panicked ≡ false

pub record IsDelivering (m : Mode) (d : List ℕ) (t : Topic) (end : ℕ) : Type 0 where
  pub flow : (c : ℕ) → IsFlowing m d (t.chans c) (contains c t.subs) end
  pub named : (c : ℕ) → contains c t.subs ≡ true → c < t.next_chan

rune_floor-le : (chunk : List ℕ) (n : ℕ) → rune_floor chunk n ≤ n
unfolding rune_floor
rune_floor-le chunk zero = omega arith
rune_floor-le chunk (suc n) = ground (arith, rune_floor-le chunk n)

-- Every event takes at least one byte, at most the limit, and no more than there is.
pub event_size_bounds :
    (limit : ℕ) (chunk : List ℕ)
    → 0 < limit
    → 0 < length chunk
    → (0 < event_size limit chunk)
      × (event_size limit chunk ≤ limit)
      × (event_size limit chunk ≤ length chunk)
unfolding event_size
event_size_bounds limit chunk l h = ground (arith, rune_floor-le chunk limit)

offer-IsFlowing :
    (m : Mode) (d : List ℕ) (ch : Chan) (subscribed : Bool) (end : ℕ) (chunk : List ℕ)
    → IsFlowing m d ch subscribed end
    → end + length chunk ≤ length d
    → chunk ≡ slice d end (length chunk)
    → IsFlowing m d
        (if subscribed then offer (log chunk (end + length chunk)) ch else ch)
        (subscribed && has_room ch)
        (end + length chunk)
offer-IsFlowing m d ch false end chunk h fits same = record {
  opened = λ e. cc;
  live = λ e. absurd (cc);
  past = h.past;
  calm = h.calm;
}
offer-IsFlowing m d ch true end chunk h fits same = elim (Bool-cases (has_room ch)) [
  | inl room ↦ rw room (record {
    opened = λ e. h.opened refl;
    live = λ e. Streams-log m d ch.cursor ch.queue end chunk (h.live refl) same;
    past =
        (end + length chunk, fits, Streams-log m d ch.cursor ch.queue end chunk (h.live refl) same);
    calm = ground (arith, h.opened refl, h.calm);
  })
  | inr full ↦ rw full (record {
    opened = λ e. cc;
    live = λ e. absurd (cc);
    past = h.past;
    calm = ground (arith, h.opened refl, h.calm);
  })
]

pub fan_out-IsDelivering :
    (m : Mode) (d : List ℕ) (t : Topic) (end : ℕ) (chunk : List ℕ)
    → IsDelivering m d t end
    → end + length chunk ≤ length d
    → chunk ≡ slice d end (length chunk)
    → IsDelivering m d (fan_out t (log chunk (end + length chunk))) (end + length chunk)
unfolding fan_out
fan_out-IsDelivering m d t end chunk h fits same = record {
  flow = λ c.
      rw (contains-keep (λ c. has_room (t.chans c)) c t.subs)
        (offer-IsFlowing m d (t.chans c) (contains c t.subs) end chunk (h.flow c) fits same);
  named = λ c k. h.named c (ground (arith, contains-keep (λ c. has_room (t.chans c)) c t.subs));
}
