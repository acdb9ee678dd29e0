-- ===== src/Notifications/Posts.antt =====
-- When a notification is submitted to the relay, and as what.
use build_system.Prelude.{
  ℕ, ◌≡◌, ◌≢◌, ◌⊎◌, ap, sym, subst, refl, inl, inr, String, Bool, true, false, not, ◌&&◌, List, [],
  ◌∷◌, Option, none, some, All, ltb, ◌==◌, ==_iff, if_rule, Bool-cases, arith, if◌then◌else◌,
}
use build_system.Prelude.Text.{str_eq, eq_iff}
use build_system.Db.Outbox.{
  is_pending, Notification, Store, allowed, some_sendable, set_notification_payload,
  notification_can_submit,
}
use build_system.Db.Outbox.Came.{Has}
use build_system.Notifications.Relay.{
  unix, Reply, Body, too_long, garbled, is_good, fetched, heard, unreachable, Response, Route,
  Worker, is_set, answered, decoded, verify_route, judged, Verified, request,
}
use build_system.Notifications.Worker.{
  Post, Step, Exchange, delivery, submit, gate, if_wanted, offer, rendered, process, is_submitted,
  is_relay_id,
}

-- The relay said in this round that its route is a configured group route that adds a title.
pub record IsGroupRoute (r : Response Route) : Type 0 where
  pub route : Route
  pub wait : Option ℕ
  pub said : r ≡ answered 200 wait (decoded route)
  pub configured : route.configured ≡ some true
  pub group : route.group ≡ some true
  pub titled : route.preserve_title ≡ some false

set_true : (o : Option Bool) → is_set true o ≡ true → o ≡ some true
set_true none h = absurd (cc h)
set_true (some b) h = ap some h

set_false : (o : Option Bool) → is_set false o ≡ true → o ≡ some false
set_false none h = absurd (cc h)
set_false (some true) h = absurd (cc h)
set_false (some false) h = refl

abbrev IsOkay : Reply Route → Type 0
IsOkay r = (r.status == 200 && is_good r.result) ≡ true

judged_okay :
    (now : ℕ) (s : Store) (w : Worker) (r : Reply Route)
    → (judged now s (w, r)).okay ≡ true
    → IsOkay r
judged_okay now s w r =
    if_rule (λ (v : Verified). v.okay ≡ true → IsOkay r) (r.status == 200 && is_good r.result) _ _
      (λ e k. e) λ e k. absurd (cc k)

and_both : (a b : Bool) → (a && b) ≡ true → (a ≡ true) × (b ≡ true)
and_both true b h = (refl, h)
and_both false b h = absurd (cc h)

at_200 :
    (status : ℕ) (body : Body Route)
    → (status == 200 && is_good (fetched status body)) ≡ true
    → is_good (fetched 200 body) ≡ true
at_200 status body h =
    let both = and_both (status == 200) (is_good (fetched status body)) h in
    subst (λ n. is_good (fetched n body) ≡ true) ((==_iff status 200).0 both.0) both.1

good_body :
    (status : ℕ) (wait : Option ℕ) (body : Body Route)
    → (status == 200 && is_good (fetched status body)) ≡ true
    → IsGroupRoute (answered status wait body)
good_body status wait too_long h = absurd (ground (arith, h))
good_body status wait garbled h = absurd (cc (at_200 status garbled h))
good_body status wait (decoded route) h =
    let good = at_200 status (decoded route) h in
    let first = and_both _ _ good in
    let second = and_both _ _ first.0 in
    record {
      route = route;
      wait = wait;
      said = ap (λ n. answered n wait (decoded route)) ((==_iff status 200).0 (and_both _ _ h).0);
      configured = set_true route.configured second.0;
      group = set_true route.group second.1;
      titled = set_false route.preserve_title first.1;
    }

answered_okay :
    (now : ℕ) (r : Response Route) (w : Worker) → IsOkay (request now r w).1 → IsGroupRoute r
unfolding request
answered_okay now r w =
    if_rule (λ (x : Worker × Reply Route). IsOkay x.1 → IsGroupRoute r)
      (ltb (unix now) w.relay_next) _ _ (λ e k. absurd (cc k)) λ e. go r
  where
    go : (r : Response Route) → IsOkay (heard now r w).1 → IsGroupRoute r
    go unreachable k = absurd (cc k)
    go (answered status wait body) k = good_body status wait body k

okay-IsGroupRoute :
    (now : ℕ) (r : Response Route) (w : Worker) (s : Store)
    → (verify_route now r w s).okay ≡ true
    → IsGroupRoute r
unfolding verify_route
okay-IsGroupRoute now r w s =
    if_rule (λ (v : Verified). v.okay ≡ true → IsGroupRoute r) (ltb (unix now) w.route_next) _ _
      (λ e k. absurd (cc k))
      λ e k. answered_okay now r w (judged_okay now s (request now r w).0 (request now r w).1 k)

-- What holds at a submission: in the store at its gate, the queue has the notification, unsent, and its
-- project, the capture and its agent's preferences allow it.
pub record IsAllowed (s : Store) (n : Notification) : Type 0 where
  pub row : Notification
  pub listed : Has s.outbox row
  pub same_id : row.id ≡ n.id
  pub unsent : is_pending row.state ≡ true
  pub agreed : allowed s row ≡ true

-- The store at the gate: the text is stored unless the notification had one, the route was read, the rest
-- of the server did what it did meanwhile, and the gate's own statement has muted what is not allowed.
abbrev pub with_text : Notification → String → Store → Store
with_text n text s = if str_eq n.payload "" then set_notification_payload n.id text s else s

abbrev pub at_gate : ℕ → Exchange → Notification → Worker → Store → String → Store
at_gate now x n w s text =
    (notification_can_submit n.id
      (x.meanwhile (verify_route now x.route w (with_text n text s)).store)).0

sendable :
    (s : Store) (n : Notification) (ns : List Notification)
    → some_sendable s n.id ns ≡ true
    → (row : Notification) × Has ns row
      × (row.id ≡ n.id)
      × (is_pending row.state ≡ true)
      × (allowed s row ≡ true)
sendable s n [] h = absurd (cc h)
sendable s n (m ∷ ns) h = elim (Bool-cases (m.id == n.id && is_pending m.state && allowed s m)) [
  | inl e ↦
      let outer = and_both (m.id == n.id && is_pending m.state) (allowed s m) e in
      let inner = and_both (m.id == n.id) (is_pending m.state) outer.0 in
      (m, inl refl, (==_iff m.id n.id).0 inner.0, inner.1, outer.1)
  | inr e ↦
      let rest = sendable s n ns (ground (arith, h, e)) in
      (rest.0, inr rest.1, rest.2, rest.3, rest.4)
]

module _ (render : ℕ → String → Option String) (valid : String → Bool) where
  -- The text of all attempts: the stored one, or the one that is made now and stored.
  abbrev pub IsText : Notification → String → Type 0
  IsText n payload =
      ((n.payload ≢ "") × (payload ≡ n.payload))
      ⊎ ((n.payload ≡ "") × (render n.project n.event_json ≡ some payload) × (valid payload ≡ true))

  -- `gate_of` is the store at the gate, by the text.
  pub record IsPosted (gate_of : String → Store) (x : Exchange) (n : Notification) (p : Post)
      : Type 0 where
    pub gate : IsAllowed (gate_of p.payload) n
    pub route : IsGroupRoute x.route
    pub key : p.key ≡ n.event_key
    pub text : IsText n p.payload

  abbrev Rightly : (String → Store) → Exchange → Notification → Step → Type 0
  Rightly g x n a = All (IsPosted g x n) a.posts

  submit-IsPosted :
      (g : String → Store) (now : ℕ) (x : Exchange) (n : Notification) (payload : String)
      (w : Worker) (s : Store)
      → IsText n payload
      → IsGroupRoute x.route
      → IsAllowed (g payload) n
      → Rightly g x n (submit now x n payload w s)
  unfolding submit
  submit-IsPosted g now x n payload w s t r a =
      if_rule (All (IsPosted g x n)) (ltb (unix now) w.relay_next) _ _ (λ e. tt)
        λ e. (record { gate = a; route = r; key = refl; text = t }, tt)

  gate-IsPosted :
      (g : String → Store) (now : ℕ) (x : Exchange) (n : Notification) (payload : String)
      (w : Worker) (s : Store)
      → IsText n payload
      → IsGroupRoute x.route
      → g payload ≡ (notification_can_submit n.id s).0
      → Rightly g x n (gate now x n payload w (notification_can_submit n.id s))
  unfolding notification_can_submit
  gate-IsPosted g now x n payload w s t r at =
      let s' = (notification_can_submit n.id s).0 in
      if_rule (Rightly g x n) (some_sendable s' n.id s'.outbox) _ _
        (λ e.
          let found = sendable s' n s'.outbox e in
          submit-IsPosted g now x n payload w s' t r (
            subst (λ y. IsAllowed y n) (sym at)
              (record {
                row = found.0;
                listed = found.1;
                same_id = found.2;
                unsent = found.3;
                agreed = found.4;
              })))
        λ e. tt

  if_wanted-IsPosted :
      (g : String → Store) (now : ℕ) (x : Exchange) (n : Notification) (w : Worker) (s : Store)
      (o : Option Bool) (next : Step)
      → Rightly g x n next
      → Rightly g x n (if_wanted now n w s o next)
  if_wanted-IsPosted g now x n w s none next h = tt
  if_wanted-IsPosted g now x n w s (some true) next h = h
  if_wanted-IsPosted g now x n w s (some false) next h = tt

  offer-IsPosted :
      (g : String → Store) (now : ℕ) (x : Exchange) (n : Notification) (payload : String)
      (w : Worker) (s : Store)
      → IsText n payload
      → g payload
        ≡ (notification_can_submit n.id (x.meanwhile (verify_route now x.route w s).store)).0
      → Rightly g x n (offer now x n payload w s)
  unfolding offer
  offer-IsPosted g now x n payload w s t at =
      let v = verify_route now x.route w s in
      let s' = x.meanwhile v.store in
      if_rule (Rightly g x n) (not v.okay) _ _ (λ e. tt)
        λ e. if_wanted-IsPosted g now x n v.worker s' (s'.wants n.project) _ (
          gate-IsPosted g now x n payload v.worker s' t
            (okay-IsGroupRoute now x.route w s (ground (arith, e))) at)

  -- Whatever the relay answers and whatever becomes of the store in the meantime, a notification is
  -- submitted only if the relay has just confirmed its group route, and the store that its gate has left,
  -- after its text was stored, the route was read, others did what they did and the gate muted what is
  -- not allowed, has it unsent, and its project, the capture and its agent's preferences allow it there;
  -- under the event's own key, and with the text that was stored for it before, or else with the one that
  -- is made and stored now.
  pub process-IsPosted :
      (now : ℕ) (x : Exchange) (n : Notification) (w : Worker) (s : Store)
      → All (IsPosted (at_gate now x n w s) x n) (process render valid now x n w s).posts
  unfolding process delivery
  process-IsPosted now x n w s =
      if_rule (Rightly (at_gate now x n w s) x n) (is_submitted n.state) _ _
        (λ e.
          if_rule (Rightly (at_gate now x n w s) x n) (not (is_relay_id n.relay_id)) _ _ (λ e'. tt)
            λ e'. tt)
        λ e. if_wanted-IsPosted (at_gate now x n w s) now x n w s (s.wants n.project) _ (
          if_rule (Rightly (at_gate now x n w s) x n) (str_eq n.payload "") _ _
            (λ e'. go e' ((eq_iff n.payload "").0 e') (render n.project n.event_json) refl)
            (λ e'.
              offer-IsPosted (at_gate now x n w s) now x n n.payload w s
                (inl ((λ k. absurd (ground (arith, e', (eq_iff n.payload "").1 k))), refl))
                (stored n.payload false e')))
    where
      stored :
          (text : String) (b : Bool)
          → str_eq n.payload "" ≡ b
          → at_gate now x n w s text
            ≡ (notification_can_submit n.id (
                x.meanwhile
                  (verify_route now x.route w
                    (if b then set_notification_payload n.id text s else s)).store)).0
      stored text b e =
          ap
            (λ c.
              (notification_can_submit n.id (
                x.meanwhile
                  (verify_route now x.route w
                    (if c then set_notification_payload n.id text s else s)).store)).0)
            e

      go :
          str_eq n.payload "" ≡ true
          → n.payload ≡ ""
          → (o : Option String) → render n.project n.event_json ≡ o
          → Rightly (at_gate now x n w s) x n (rendered render valid now x n w s o)
      go b e none k = tt
      go b e (some payload) k =
          if_rule (Rightly (at_gate now x n w s) x n) (valid payload) _ _
            (λ ok.
              offer-IsPosted (at_gate now x n w s) now x n payload w
                (set_notification_payload n.id payload s) (inr (e, k, ok)) (stored payload true b))
            λ bad. tt
