-- ===== src/Notifications/Worker.antt =====
-- internal/notifications/worker.go: the handling of one notification, and the sweep over those that are due.
use Prim.Native.Nat.{◌*◌}
use build_system.Prelude.{
  ℕ, ◌+◌, String, Bool, true, false, not, ◌&&◌, ◌||◌, List, [], ◌∷◌, ◌++◌, Option, none, some,
  length, ltb, leb, ◌==◌, if◌then◌else◌,
}
use build_system.Prelude.Text.{str_eq, codes}
use build_system.Db.Outbox.{
  NotificationState, submitted, delivered, failed, muted, Notification, Store,
  set_notification_payload, update_notification, record_notification_acceptance,
  notification_can_submit, set_telegram_capture, prune_notifications, due_notifications,
}
use build_system.Notifications.Relay.{
  second, unix, backoff, Response, Fetched, got, Reply, Worker, request, Route, verify_route,
}

-- The status that a receipt has; the last one is none of the relay's.
pub data ReceiptStatus : Type 0 where
  waiting sent refused discarded overdue unknown : ReceiptStatus

pub record Receipt : Type 0 where
  pub id : String
  pub status : ReceiptStatus

-- `validReceiptStatus`.
abbrev pub valid_receipt_status : ReceiptStatus → Bool
valid_receipt_status unknown = false
valid_receipt_status _ = true

abbrev pub state_of_receipt : ReceiptStatus → NotificationState
state_of_receipt sent = delivered
state_of_receipt refused = failed
state_of_receipt discarded = failed
state_of_receipt overdue = failed
state_of_receipt _ = submitted

abbrev pub is_hex : List ℕ → Bool
is_hex [] = true
is_hex (c ∷ cs) = ((leb 97 c && leb c 102) || (leb 48 c && leb c 57)) && is_hex cs

-- `relayIDPattern`.
abbrev pub is_relay_id : String → Bool
is_relay_id s = length (codes s) == 32 && is_hex (codes s)

-- `retry`.
unfoldable pub retry_later : ℕ → Notification → ℕ → Store → Store
retry_later now n retry s =
    update_notification n.id n.state n.relay_id (n.attempts + 1)
      (unix (now + backoff (n.attempts + 1) retry)) s

-- A submission to the relay: its idempotency key and its text.
pub record Post : Type 0 where
  pub key : String
  pub payload : String

-- The worker, the store and the submissions after a notification; an error ends the sweep.
pub record Step : Type 0 where
  pub worker : Worker
  pub store : Store
  pub posts : List Post
  pub fails : Bool

abbrev pub quiet : Worker → Store → Step
quiet w s = record { worker = w; store = s; posts = []; fails = false }

abbrev pub aborts : Worker → Store → Step
aborts w s = record { worker = w; store = s; posts = []; fails = true }

abbrev pub receipt_of : Fetched Receipt → Option Receipt
receipt_of (got r) = if valid_receipt_status r.status then some r else none
receipt_of _ = none

abbrev pub tracked : ℕ → Notification → ℕ → Store → Option Receipt → Store
tracked now n retry s none = retry_later now n retry s
tracked now n retry s (some r) =
    if str_eq r.id n.relay_id
    then update_notification n.id (state_of_receipt r.status) n.relay_id n.attempts
        (unix (now + 30 * second)) s
    else retry_later now n retry s

-- `delivery`, with what the store has become during the request.
unfoldable pub delivery :
    ℕ → Response Receipt → (Store → Store) → Notification → Worker → Store → Step
delivery now response during n w s =
    let (w', r) = request now response w in
    if not (is_relay_id n.relay_id)
    then quiet w (update_notification n.id failed "" n.attempts (unix now) s)
    else quiet w'
        (tracked now n r.retry (during s) (if r.status == 200 then receipt_of r.result else none))

-- What one notification meets outside: the answers of the relay, and what the store becomes while the
-- route is read and while the submission runs.
pub record Exchange : Type 0 where
  pub route : Response Route
  pub meanwhile : Store → Store
  pub submission : Response Receipt
  pub during : Store → Store

abbrev pub lost_for_good : ℕ → Bool
lost_for_good status = status == 400 || status == 413 || status == 422

abbrev pub taken_receipt : Reply Receipt → Option Receipt
taken_receipt r = if r.status == 200 || r.status == 202 then receipt_of r.result else none

abbrev pub with_good_id : Option Receipt → Option Receipt
with_good_id none = none
with_good_id (some r) = if is_relay_id r.id then some r else none

-- What follows a submission.
abbrev pub settled : ℕ → Notification → Reply Receipt → Store → Option Receipt → Store
settled now n r s none =
    if lost_for_good r.status
    then update_notification n.id failed "" (n.attempts + 1) (unix now) s
    else retry_later now n r.retry s
settled now n r s (some receipt) =
    record_notification_acceptance n.id (state_of_receipt receipt.status) receipt.id
      (n.attempts + 1) (unix (now + 30 * second)) s

-- The submission.
unfoldable pub submit : ℕ → Exchange → Notification → String → Worker → Store → Step
submit now x n payload w s =
    let (w', r) = request now x.submission w in
    record {
      worker = w';
      store = settled now n r (x.during s) (with_good_id (taken_receipt r));
      posts =
          if ltb (unix now) w.relay_next
          then []
          else record { key = n.event_key; payload = payload } ∷ [];
      fails = false;
    }

-- `NotificationCanSubmit`, and what follows.
abbrev pub gate : ℕ → Exchange → Notification → String → Worker → Store × Bool → Step
gate now x n payload w (s, can_submit) =
    if can_submit then submit now x n payload w s else quiet w s

abbrev pub mute : ℕ → Notification → Store → Store
mute now n s = update_notification n.id muted "" n.attempts (unix now) s

-- Where the project's switch is read; without a project there is an error.
abbrev pub if_wanted : ℕ → Notification → Worker → Store → Option Bool → Step → Step
if_wanted now n w s none next = aborts w s
if_wanted now n w s (some wants) next = if wants then next else quiet w (mute now n s)

-- What follows the payload.
unfoldable pub offer : ℕ → Exchange → Notification → String → Worker → Store → Step
offer now x n payload w s =
    let v = verify_route now x.route w s in
    let s' = x.meanwhile v.store in
    if not v.okay
    then quiet v.worker (retry_later now n v.retry s')
    else if_wanted now n v.worker s' (s'.wants n.project)
        (gate now x n payload v.worker (notification_can_submit n.id s'))

abbrev pub is_submitted : NotificationState → Bool
is_submitted submitted = true
is_submitted _ = false

-- `render` makes an event's payload of its JSON text, and `valid` are the checks of
-- SetNotificationPayload.
module _ (render : ℕ → String → Option String) (valid : String → Bool) where
  abbrev pub rendered : ℕ → Exchange → Notification → Worker → Store → Option String → Step
  rendered now x n w s none = quiet w (update_notification n.id failed "" n.attempts (unix now) s)
  rendered now x n w s (some payload) =
      if valid payload
      then offer now x n payload w (set_notification_payload n.id payload s)
      else aborts w s

  -- `process`.
  unfoldable pub process : ℕ → Exchange → Notification → Worker → Store → Step
  process now x n w s =
      if is_submitted n.state
      then delivery now x.submission x.during n w s
      else if_wanted now n w s (s.wants n.project) (
          if str_eq n.payload ""
          then rendered now x n w s (render n.project n.event_json)
          else offer now x n n.payload w s)

  -- The loop of `Sweep`, for the exchanges of its rounds; the time of the sweep may run out before one.
  abbrev pub and_then : Step → (Worker → Store → Step) → Step
  and_then a next =
      let b = next a.worker a.store in
      record { worker = b.worker; store = b.store; posts = a.posts ++ b.posts; fails = b.fails }

  unfoldable pub process_all :
      ℕ → List Notification → List (Option Exchange) → Worker → Store → Step
  process_all now [] xs w s = quiet w s
  process_all now (n ∷ ns) [] w s = aborts w s
  process_all now (n ∷ ns) (none ∷ xs) w s = aborts w s
  process_all now (n ∷ ns) (some x ∷ xs) w s =
      let a = process now x n w s in
      if a.fails
      then a
      else if ltb (unix now) a.worker.relay_next
      then a
      else and_then a (process_all now ns xs)

  -- `Sweep`, without the observation of agents.
  unfoldable pub sweep : ℕ → Response Route → List (Option Exchange) → Worker → Store → Step
  sweep now route xs w s =
      let pruned = prune_notifications (unix now) s in
      let v = verify_route now route w pruned in
      if not w.keyed
      then quiet (record w { configured = false }) (set_telegram_capture false pruned)
      else if ltb (unix now) w.relay_next
      then quiet w pruned
      else process_all now (due_notifications (unix now) 10 v.store) xs v.worker v.store
