-- ===== src/Db/Outbox.antt =====
-- internal/db/notifications.go: the durable queue of notifications, its statements and transactions. A
-- time is a number of seconds; the rows stand in the order of their ids. The driver's own failures
-- and what is kept of the builds and agents that were seen are not modelled.
pub mod Observed
pub mod Follows
pub mod Came
pub mod Samples
pub mod Pruned
mod Tests
use Prim.Native.Nat.{◌*◌}
use build_system.Prelude.{
  ℕ, ◌+◌, ◌-◌, String, Bool, true, false, not, ◌&&◌, ◌||◌, List, [], ◌∷◌, ◌++◌, Option, none, some,
  length, take, keep, map, contains, ltb, leb, ◌==◌, if◌then◌else◌,
}
use build_system.Prelude.Text.{str_eq}

pub data NotificationState : Type 0 where
  pending submitted delivered failed muted expired suppressed : NotificationState

-- `state IN ('pending','submitted')`.
abbrev pub is_open : NotificationState → Bool
is_open pending = true
is_open submitted = true
is_open _ = false

abbrev pub is_pending : NotificationState → Bool
is_pending pending = true
is_pending _ = false

-- `state IN ('pending','muted','suppressed')`.
abbrev pub is_unsent : NotificationState → Bool
is_unsent pending = true
is_unsent muted = true
is_unsent suppressed = true
is_unsent _ = false

pub record Notification : Type 0 where
  pub id : ℕ
  pub project : ℕ
  pub event_key : String
  pub event_json : String
  pub payload : String
  pub agent_name : String
  pub event_kind : String
  pub state : NotificationState
  pub relay_id : String
  pub attempts : ℕ
  pub created_at : ℕ
  pub next_attempt_at : ℕ

-- A row of `agent_notification_preferences`.
pub record Preferences : Type 0 where
  pub name : String
  pub enabled : Bool
  pub availability : Bool
  pub health : Bool
  pub builds : Bool

-- The projects' switches, the capture setting, the preferences and the queue.
pub record Store : Type 0 where
  pub wants : ℕ → Option Bool
  pub capture : Bool
  pub preferences : List Preferences
  pub outbox : List Notification

-- A condition of `agentNotificationAllowedSQL` on one row.
abbrev pub forbids : String → String → Preferences → Bool
forbids name kind a =
    str_eq a.name name
    && not (str_eq name "")
    && (not a.enabled
        || (str_eq kind "availability" && not a.availability)
        || (str_eq kind "health" && not a.health)
        || (str_eq kind "build" && not a.builds)
        || ((str_eq kind "agent" || str_eq kind "") && (not a.availability || not a.health)))

abbrev pub some_forbids : String → String → List Preferences → Bool
some_forbids name kind [] = false
some_forbids name kind (a ∷ as_rows) = forbids name kind a || some_forbids name kind as_rows

abbrev pub wanted : Option Bool → Bool
wanted none = false
wanted (some w) = w

-- The project wants it, the capture is on, and the agent's preferences allow it.
abbrev pub allowed : Store → Notification → Bool
allowed s n =
    wanted (s.wants n.project)
    && s.capture
    && not (some_forbids n.agent_name n.event_kind s.preferences)

-- `UPDATE notification_outbox ... WHERE id = ?`.
unfoldable pub on_id : ℕ → (Notification → Notification) → List Notification → List Notification
on_id id f [] = []
on_id id f (n ∷ ns) = (if n.id == id then f n else n) ∷ on_id id f ns

abbrev pub at_id : ℕ → (Notification → Notification) → Store → Store
at_id id f s = record s { outbox = on_id id f s.outbox }

abbrev pub with_payload : String → Notification → Notification
with_payload payload n = if str_eq n.payload "" then record n { payload = payload } else n

-- `SetNotificationPayload`, for a payload that passes its checks.
unfoldable pub set_notification_payload : ℕ → String → Store → Store
set_notification_payload id payload s = at_id id (with_payload payload) s

abbrev pub updated : NotificationState → String → ℕ → ℕ → Notification → Notification
updated st relay attempts next n =
    if is_open n.state
    then record n { state = st; relay_id = relay; attempts = attempts; next_attempt_at = next }
    else n

-- `UpdateNotification`; the callers' relay ids have 32 characters or none.
unfoldable pub update_notification : ℕ → NotificationState → String → ℕ → ℕ → Store → Store
update_notification id st relay attempts next s = at_id id (updated st relay attempts next) s

abbrev pub accepted : NotificationState → String → ℕ → ℕ → Notification → Notification
accepted st relay attempts next n =
    if str_eq n.relay_id "" && is_unsent n.state
    then record n { state = st; relay_id = relay; attempts = attempts; next_attempt_at = next }
    else n

-- `RecordNotificationAcceptance`, for a state and an id that pass its checks.
unfoldable pub record_notification_acceptance :
    ℕ → NotificationState → String → ℕ → ℕ → Store → Store
record_notification_acceptance id st relay attempts next s =
    at_id id (accepted st relay attempts next) s

abbrev pub gated : Store → Notification → Notification
gated s n = if is_pending n.state && not (allowed s n) then record n { state = muted } else n

abbrev pub some_sendable : Store → ℕ → List Notification → Bool
some_sendable s id [] = false
some_sendable s id (n ∷ ns) =
    (n.id == id && is_pending n.state && allowed s n) || some_sendable s id ns

-- `NotificationCanSubmit`.
unfoldable pub notification_can_submit : ℕ → Store → Store × Bool
notification_can_submit id s = let s' = at_id id (gated s) s in (s', some_sendable s' id s'.outbox)

abbrev pub every : (Notification → Notification) → Store → Store
every f s = record s { outbox = map f s.outbox }

abbrev pub leave_pending : NotificationState → Notification → Notification
leave_pending st n = if is_pending n.state then record n { state = st } else n

-- `SetTelegramCapture`.
unfoldable pub set_telegram_capture : Bool → Store → Store
set_telegram_capture on s =
    let s' = record s { capture = on } in if on then s' else every (leave_pending suppressed) s'

-- A save of a project's switch, with the trigger `notification_project_mute`.
abbrev pub muted_of : ℕ → Notification → Notification
muted_of project n = if n.project == project then leave_pending muted n else n

unfoldable pub set_project_switch : ℕ → Bool → Store → Store
set_project_switch project on s =
    let s' = record s { wants = λ p. if p == project then some on else s.wants p } in
    if not on && wanted (s.wants project) then every (muted_of project) s' else s'

-- A day, and `NotificationQueueLimit`.
abbrev pub day : ℕ
day = 86400

abbrev pub notification_queue_limit : ℕ
notification_queue_limit = 1000

abbrev pub aged : ℕ → Notification → Notification
aged now n =
    if is_pending n.state && ltb (n.created_at + day) now then record n { state = expired } else n

abbrev pub ids : List Notification → List ℕ
ids ns = map (λ (n : Notification). n.id) ns

-- `ORDER BY CASE WHEN state IN ('pending','submitted') THEN 1 ELSE 0 END, id`.
abbrev pub by_need : List Notification → List Notification
by_need ns =
    keep (λ (n : Notification). not (is_open n.state)) ns
    ++ keep (λ (n : Notification). is_open n.state) ns

-- The rows over the limit are dropped, those that are closed first.
unfoldable pub capped : List Notification → List Notification
capped ns =
    let doomed = ids (take (length ns - notification_queue_limit) (by_need ns)) in
    keep (λ (n : Notification). not (contains n.id doomed)) ns

abbrev pub fresh : ℕ → Notification → Bool
fresh now n = leb now (n.created_at + 7 * day)

-- `PruneNotifications`.
unfoldable pub prune_notifications : ℕ → Store → Store
prune_notifications now s = record s {
  outbox = capped (keep (fresh now) (map (aged now) s.outbox));
}

-- `ORDER BY next_attempt_at, id`.
abbrev pub sooner : Notification → Notification → Bool
sooner a b =
    ltb a.next_attempt_at b.next_attempt_at
    || (a.next_attempt_at == b.next_attempt_at && leb a.id b.id)

abbrev pub insert_due : Notification → List Notification → List Notification
insert_due n [] = n ∷ []
insert_due n (m ∷ ms) = if sooner n m then n ∷ m ∷ ms else m ∷ insert_due n ms

abbrev pub sort_due : List Notification → List Notification
sort_due [] = []
sort_due (n ∷ ns) = insert_due n (sort_due ns)

-- `DueNotifications`.
unfoldable pub due_notifications : ℕ → ℕ → Store → List Notification
due_notifications now limit s =
    take (if ltb limit 1 || ltb 25 limit then 25 else limit) (
      sort_due (keep (λ (n : Notification). is_open n.state && leb n.next_attempt_at now) s.outbox))

unfoldable pub get_notification : ℕ → List Notification → Option Notification
get_notification id [] = none
get_notification id (n ∷ ns) = if n.id == id then some n else get_notification id ns
