-- ===== src/Db/Outbox/Observed.antt =====
-- What enters the queue, and an operator's change of an agent's preferences: the triggers and
-- observeNotificationAgent of internal/db/notifications.go, and internal/db/agent_notifications.go.
use build_system.Prelude.{
  ℕ, String, Bool, true, false, not, ◌&&◌, ◌||◌, List, [], ◌∷◌, ◌++◌, Option, none, some,
  if◌then◌else◌,
}
use build_system.Prelude.Text.{str_eq}
use build_system.Db.Outbox.{
  pending, muted, is_pending, Notification, Preferences, Store, allowed, every, capped,
}

-- A build or an agent as it is observed. The id is the one that the table gives; `due` is whether the
-- build's status, its size and what was seen before, or the agent's fingerprint, ask for a row.
pub record Observation : Type 0 where
  pub id : ℕ
  pub project : ℕ
  pub event_key : String
  pub event_json : String
  pub payload : String
  pub agent_name : String
  pub event_kind : String
  pub now : ℕ
  pub due : Bool

abbrev pub new_row : Observation → Notification
new_row e = record {
  id = e.id;
  project = e.project;
  event_key = e.event_key;
  event_json = e.event_json;
  payload = e.payload;
  agent_name = e.agent_name;
  event_kind = e.event_kind;
  state = pending;
  relay_id = "";
  attempts = 0;
  created_at = e.now;
  next_attempt_at = e.now;
}

-- `event_key TEXT NOT NULL UNIQUE`.
abbrev pub has_key : String → List Notification → Bool
has_key key [] = false
has_key key (n ∷ ns) = str_eq n.event_key key || has_key key ns

-- The INSERT of a row whose key is new, for a project that wants it, with the capture on and no
-- preference against it; and the DELETE of the rows over the limit.
unfoldable pub observe_event : Observation → Store → Store
observe_event e s = record s {
  outbox = capped (
      if e.due && not (has_key e.event_key s.outbox) && allowed s (new_row e)
      then s.outbox ++ new_row e ∷ []
      else s.outbox);
}

-- `suppress`: the unsent rows that the preferences are against.
abbrev pub is_against : Preferences → Notification → Bool
is_against p n =
    is_pending n.state
    && (str_eq n.agent_name p.name
        && (not p.enabled
            || (str_eq n.event_kind "availability" && not p.availability)
            || (str_eq n.event_kind "health" && not p.health)
            || (str_eq n.event_kind "build" && not p.builds)
            || ((str_eq n.event_kind "agent" || str_eq n.event_kind "")
                && (not p.availability || not p.health))))

abbrev pub suppressed_by : Preferences → Notification → Notification
suppressed_by p n = if is_against p n then record n { state = muted } else n

-- The row of an agent, or the defaults.
abbrev pub preferences_of : String → List Preferences → Preferences
preferences_of name [] = record {
  name = name;
  enabled = true;
  availability = true;
  health = true;
  builds = true;
}
preferences_of name (p ∷ ps) = if str_eq p.name name then p else preferences_of name ps

-- A key of the operator's change.
abbrev pub merged_key : String → Bool → Preferences → Option Preferences
merged_key key value p =
    if str_eq key "enabled"
    then some (record p { enabled = value })
    else if str_eq key "availability"
    then some (record p { availability = value })
    else if str_eq key "health"
    then some (record p { health = value })
    else if str_eq key "builds"
    then some (record p { builds = value })
    else none

unfoldable pub merged : List (String × Bool) → Option Preferences → Option Preferences
merged patch none = none
merged [] (some p) = some p
merged ((key, value) ∷ patch) (some p) = merged patch (merged_key key value p)

-- `ON CONFLICT(name) DO UPDATE`.
abbrev pub put_preferences : Preferences → List Preferences → List Preferences
put_preferences p [] = p ∷ []
put_preferences p (q ∷ qs) = if str_eq q.name p.name then p ∷ qs else q ∷ put_preferences p qs

-- An unknown key rolls the transaction back.
abbrev pub saved : Store → Store → Option Preferences → Store
saved s s' none = s
saved s s' (some p) =
    every (suppressed_by p) (record s' { preferences = put_preferences p s'.preferences })

-- `UpdateAgentNotificationPreferences`, for a name that passes its check.
unfoldable pub update_agent_preferences : String → List (String × Bool) → Store → Store
update_agent_preferences name patch s =
    let p = preferences_of name s.preferences in
    saved s (every (suppressed_by p) s) (merged patch (some p))
