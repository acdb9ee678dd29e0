-- ===== src/Agents/Registry.antt =====
-- internal/agents/registry.go: the sightings of agents since the server started. A zero time is none.
-- The function that PollStarted returns is a poll in `polls`, under its number, until it first runs.
use build_system.Prelude.{
  ℕ, suc, ◌+◌, ◌-◌, String, Bool, true, false, List, [], ◌∷◌, Option, none, some, ltb, leb, ◌==◌,
  if◌then◌else◌,
}
use build_system.Prelude.Int.{ℤ, pos, negsuc}
use build_system.Prelude.Text.{str_eq}

-- `DuplicateForget`, in nanoseconds.
abbrev pub duplicate_forget : ℕ
duplicate_forget = 300000000000

pub record Sighting : Type 0 where
  pub executors : List String
  pub scheme : String
  pub first_seen : ℕ
  pub last_poll : ℕ
  pub polling : ℕ
  pub skew : ℤ
  pub skew_known : Bool
  pub double_since : Option ℕ
  pub last_double : Option ℕ
  pub last_persist : Option ℕ

pub record Registry : Type 0 where
  pub seen : String → Option Sighting
  pub started : ℕ
  pub polls : List (ℕ × String)
  pub next_poll : ℕ

abbrev pub new_registry : ℕ → Registry
new_registry now = record { seen = λ name. none; started = now; polls = []; next_poll = 0 }

abbrev pub put : String → Option Sighting → Registry → Registry
put name o r = record r { seen = λ n. if str_eq n name then o else r.seen n }

abbrev pub new_sighting : ℕ → Sighting
new_sighting now = record {
  executors = [];
  scheme = "";
  first_seen = now;
  last_poll = 0;
  polling = 0;
  skew = pos 0;
  skew_known = false;
  double_since = none;
  last_double = none;
  last_persist = none;
}

abbrev pub sighting_or : ℕ → Option Sighting → Sighting
sighting_or now none = new_sighting now
sighting_or now (some s) = s

abbrev pub since_or : ℕ → Option ℕ → Option ℕ
since_or now none = some now
since_or now (some t) = some t

-- The episode of a name with two open claims: an old one is forgotten first.
abbrev pub is_old : ℕ → Option ℕ → Bool
is_old now none = false
is_old now (some t) = ltb (t + duplicate_forget) now

unfoldable pub doubled : ℕ → Sighting → Sighting
doubled now s = record s {
  double_since = since_or now (if is_old now s.last_double then none else s.double_since);
  last_double = some now;
}

abbrev pub polled : ℕ → List String → String → Sighting → Sighting
polled now executors scheme s = record s {
  executors = executors;
  scheme = scheme;
  last_poll = now;
  polling = suc s.polling;
}

-- `PollStarted`.
unfoldable pub poll_started : ℕ → String → List String → String → Registry → Registry
poll_started now name executors scheme r =
    let s = polled now executors scheme (sighting_or now (r.seen name)) in
    if str_eq name ""
    then r
    else record (put name (some (if ltb 1 s.polling then doubled now s else s)) r) {
      polls = (r.next_poll, name) ∷ r.polls;
      next_poll = suc r.next_poll;
    }

unfoldable pub find_poll : ℕ → List (ℕ × String) → Option String
find_poll k [] = none
find_poll k ((j, name) ∷ ps) = if j == k then some name else find_poll k ps

unfoldable pub drop_poll : ℕ → List (ℕ × String) → List (ℕ × String)
drop_poll k [] = []
drop_poll k ((j, name) ∷ ps) = let rest = drop_poll k ps in if j == k then ps else (j, name) ∷ rest

abbrev pub ended : ℕ → Option Sighting → Option Sighting
ended now none = none
ended now (some s) = some (record s { polling = s.polling - 1; last_poll = now })

abbrev pub end_poll : ℕ → ℕ → Option String → Registry → Registry
end_poll now k none r = r
end_poll now k (some name) r = record (put name (ended now (r.seen name)) r) {
  polls = drop_poll k r.polls;
}

-- The returned function, which acts once.
unfoldable pub poll_ended : ℕ → ℕ → Registry → Registry
poll_ended now k r = end_poll now k (find_poll k r.polls) r

abbrev pub is_recent : ℕ → ℕ → Option ℕ → Bool
is_recent now interval none = false
is_recent now interval (some t) = ltb now (t + interval)

abbrev pub persist_at : ℕ → ℕ → String → Option Sighting → Registry → Registry × Bool
persist_at now interval name none r = (r, false)
persist_at now interval name (some s) r =
    if is_recent now interval s.last_persist
    then (r, false)
    else (put name (some (record s { last_persist = some now })) r, true)

-- `ShouldPersist`.
unfoldable pub should_persist : ℕ → ℕ → String → Registry → Registry × Bool
should_persist now interval name r =
    if str_eq name "" then (r, false) else persist_at now interval name (r.seen name) r

abbrev pub minus : ℕ → ℕ → ℤ
minus a b = if leb b a then pos (a - b) else negsuc (b - a - 1)

abbrev pub with_skew : ℤ → Option Sighting → Option Sighting
with_skew d none = none
with_skew d (some s) = some (record s { skew = d; skew_known = true })

-- `NoteClock`; the agent's clock is none where it is the zero time.
unfoldable pub note_clock : ℕ → String → Option ℕ → Registry → Registry
note_clock now name none r = r
note_clock now name (some clock) r =
    if str_eq name "" then r else put name (with_skew (minus clock now) (r.seen name)) r

-- `Forget`.
unfoldable pub forget : String → Registry → Registry
forget name r = put name none r
