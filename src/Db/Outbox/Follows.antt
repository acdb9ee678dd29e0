-- ===== src/Db/Outbox/Follows.antt =====
-- What becomes of a notification under the statements of the queue.
use build_system.Prelude.{
  ℕ, ◌≡◌, ◌≢◌, ◌∙◌, ap, sym, refl, String, Bool, true, false, not, ◌&&◌, List, keep, [], ◌∷◌,
  if_rule, arith,
}
use build_system.Prelude.Text.{str_eq, eq_iff}
use build_system.Db.Outbox.{
  NotificationState, pending, submitted, delivered, failed, muted, expired, suppressed, is_open,
  is_pending, is_unsent, Notification, Store, with_payload, set_notification_payload, updated,
  update_notification, accepted, record_notification_acceptance, gated, notification_can_submit,
  leave_pending, set_telegram_capture, set_project_switch, aged, prune_notifications, allowed,
}
use build_system.Db.Outbox.{Preferences}
use build_system.Db.Outbox.Observed.{
  Observation, observe_event, suppressed_by, update_agent_preferences,
}

-- Everything that writes the queue while the server runs, with any arguments.
pub data Statement : Type 0 where
  sets_payload : ℕ → String → Statement
  updates accepts : ℕ → NotificationState → String → ℕ → ℕ → Statement
  gates : ℕ → Statement
  captures : Bool → Statement
  switches : ℕ → Bool → Statement
  prunes : ℕ → Statement
  observes : Observation → Statement
  prefers : String → List (String × Bool) → Statement
  deletes : (Notification → Bool) → Statement

-- A deletion takes rows away with the project or the build that they belong to.
abbrev pub delete_rows : (Notification → Bool) → Store → Store
delete_rows gone s = record s { outbox = keep (λ n. not (gone n)) s.outbox }

unfoldable pub run_statement : Statement → Store → Store
run_statement (sets_payload id payload) s = set_notification_payload id payload s
run_statement (updates id st relay attempts next) s =
    update_notification id st relay attempts next s
run_statement (accepts id st relay attempts next) s =
    record_notification_acceptance id st relay attempts next s
run_statement (gates id) s = (notification_can_submit id s).0
run_statement (captures on) s = set_telegram_capture on s
run_statement (switches project on) s = set_project_switch project on s
run_statement (prunes now) s = prune_notifications now s
run_statement (observes e) s = observe_event e s
run_statement (prefers name patch) s = update_agent_preferences name patch s
run_statement (deletes gone) s = delete_rows gone s

unfoldable pub run_statements : List Statement → Store → Store
run_statements [] s = s
run_statements (x ∷ xs) s = run_statements xs (run_statement x s)

-- A receipt has been given, or there is nothing to wait for.
abbrev pub is_final : NotificationState → Bool
is_final delivered = true
is_final failed = true
is_final expired = true
is_final _ = false

-- What a later form of a notification keeps.
pub record Follows (n m : Notification) : Type 0 where
  pub same_id : m.id ≡ n.id
  pub same_project : m.project ≡ n.project
  pub same_key : m.event_key ≡ n.event_key
  pub payload_once : n.payload ≢ "" → m.payload ≡ n.payload
  pub done : is_final n.state ≡ true → m.state ≡ n.state

pub Follows-refl : (n : Notification) → Follows n n
Follows-refl n = record {
  same_id = refl;
  same_project = refl;
  same_key = refl;
  payload_once = λ h. refl;
  done = λ h. refl;
}

pub Follows-trans : (a b c : Notification) → Follows a b → Follows b c → Follows a c
Follows-trans a b c h k = record {
  same_id = k.same_id ∙ h.same_id;
  same_project = k.same_project ∙ h.same_project;
  same_key = k.same_key ∙ h.same_key;
  payload_once = λ e. k.payload_once (λ x. e (sym (h.payload_once e) ∙ x)) ∙ h.payload_once e;
  done = λ e. k.done (ap is_final (h.done e) ∙ e) ∙ h.done e;
}

-- A write that leaves the payload and the key alone, and a final state.
moved :
    (n : Notification) (st : NotificationState) (relay : String) (attempts next : ℕ)
    → (is_final n.state ≡ true → st ≡ n.state)
    → Follows n
        (record n { state = st; relay_id = relay; attempts = attempts; next_attempt_at = next })
moved n st relay attempts next h = record {
  same_id = refl;
  same_project = refl;
  same_key = refl;
  payload_once = λ e. refl;
  done = h;
}

open_not_final : (st : NotificationState) → is_open st ≡ true → is_final st ≡ true → ⊥
open_not_final pending e k = cc k
open_not_final submitted e k = cc k
open_not_final delivered e k = cc e
open_not_final failed e k = cc e
open_not_final muted e k = cc e
open_not_final expired e k = cc e
open_not_final suppressed e k = cc e

unsent_not_final : (st : NotificationState) → is_unsent st ≡ true → is_final st ≡ true → ⊥
unsent_not_final pending e k = cc k
unsent_not_final submitted e k = cc k
unsent_not_final delivered e k = cc e
unsent_not_final failed e k = cc e
unsent_not_final muted e k = cc k
unsent_not_final expired e k = cc e
unsent_not_final suppressed e k = cc k

pending_open : (st : NotificationState) → is_pending st ≡ true → is_open st ≡ true
pending_open pending e = refl
pending_open submitted e = refl
pending_open delivered e = absurd (cc e)
pending_open failed e = absurd (cc e)
pending_open muted e = absurd (cc e)
pending_open expired e = absurd (cc e)
pending_open suppressed e = absurd (cc e)

left_pending :
    (n : Notification) (st : NotificationState)
    → is_pending n.state ≡ true
    → Follows n (record n { state = st })
left_pending n st e =
    moved n st n.relay_id n.attempts n.next_attempt_at
      λ k. absurd (open_not_final n.state (pending_open n.state e) k)

pub payload-Follows : (payload : String) (n : Notification) → Follows n (with_payload payload n)
payload-Follows payload n =
    if_rule (Follows n) (str_eq n.payload "") _ _
      (λ e. record {
        same_id = refl;
        same_project = refl;
        same_key = refl;
        payload_once = λ h. absurd (h ((eq_iff n.payload "").0 e));
        done = λ h. refl;
      })
      λ e. Follows-refl n

pub updated-Follows :
    (st : NotificationState) (relay : String) (attempts next : ℕ) (n : Notification)
    → Follows n (updated st relay attempts next n)
updated-Follows st relay attempts next n =
    if_rule (Follows n) (is_open n.state) _ _
      (λ e. moved n st relay attempts next (λ k. absurd (open_not_final n.state e k)))
      λ e. Follows-refl n

pub accepted-Follows :
    (st : NotificationState) (relay : String) (attempts next : ℕ) (n : Notification)
    → Follows n (accepted st relay attempts next n)
accepted-Follows st relay attempts next n =
    if_rule (Follows n) (str_eq n.relay_id "" && is_unsent n.state) _ _
      (λ e.
        moved n st relay attempts next
          (λ k. absurd (unsent_not_final n.state (ground (arith, e)) k)))
      λ e. Follows-refl n

pub gated-Follows : (s : Store) (n : Notification) → Follows n (gated s n)
gated-Follows s n =
    if_rule (Follows n) (is_pending n.state && not (allowed s n)) _ _
      (λ e. left_pending n muted (ground (arith, e))) λ e. Follows-refl n

pub leave-Follows : (st : NotificationState) (n : Notification) → Follows n (leave_pending st n)
leave-Follows st n =
    if_rule (Follows n) (is_pending n.state) _ _ (λ e. left_pending n st e) λ e. Follows-refl n

pub suppressed-Follows : (p : Preferences) (n : Notification) → Follows n (suppressed_by p n)
suppressed-Follows p n =
    if_rule (Follows n) (is_pending n.state && _) _ _
      (λ e. left_pending n muted (ground (arith, e))) λ e. Follows-refl n

pub aged-Follows : (now : ℕ) (n : Notification) → Follows n (aged now n)
aged-Follows now n =
    if_rule (Follows n) (is_pending n.state && _) _ _
      (λ e. left_pending n expired (ground (arith, e))) λ e. Follows-refl n
