-- ===== src/Notifications/Sweeps.antt =====
-- One sweep of the worker: how much it sends, and when it sends nothing.
use build_system.Prelude.{
  ℕ, ◌≤◌, ◌≡◌, ◌⊎◌, ap, sym, subst, refl, inl, inr, String, Bool, true, false, not, List, [], ◌∷◌,
  Option, none, some, length, length-append, length-take, keep, All, All-map, ltb, if_rule, arith,
  All-append, ◌++◌, if◌then◌else◌,
}
use build_system.Prelude.Text.{str_eq}
use build_system.Db.Outbox.{
  Notification, Store, due_notifications, notification_can_submit, sort_due,
  set_notification_payload, prune_notifications,
}
use build_system.Db.Outbox.Came.{Has}
use build_system.Notifications.Relay.{unix, Response, Route, Worker, verify_route}
use build_system.Notifications.Worker.{
  Post, Step, Exchange, delivery, submit, if_wanted, offer, rendered, process, is_submitted,
  is_relay_id, process_all, sweep,
}
use build_system.Notifications.Posts.{IsPosted, at_gate, process-IsPosted}

abbrev Single : Step → Type 0
Single a = length a.posts ≤ 1

if_wanted-Single :
    (now : ℕ) (n : Notification) (w : Worker) (s : Store) (o : Option Bool) (next : Step)
    → Single next
    → Single (if_wanted now n w s o next)
if_wanted-Single now n w s none next h = omega arith
if_wanted-Single now n w s (some true) next h = h
if_wanted-Single now n w s (some false) next h = omega arith

offer-Single :
    (now : ℕ) (x : Exchange) (n : Notification) (payload : String) (w : Worker) (s : Store)
    → Single (offer now x n payload w s)
unfolding offer notification_can_submit submit
offer-Single now x n payload w s =
    let v = verify_route now x.route w s in
    let s' = x.meanwhile v.store in
    if_rule Single (not v.okay) _ _ (λ e. omega arith)
      λ e. if_wanted-Single now n v.worker s' (s'.wants n.project) _ (
        if_rule Single (notification_can_submit n.id s').1 _ _
          (λ e'.
            if_rule (λ (l : List Post). length l ≤ 1) (ltb (unix now) v.worker.relay_next) _ _
              (λ e''. omega arith) λ e''. omega arith)
          λ e'. omega arith)

module _ (render : ℕ → String → Option String) (valid : String → Bool) where
  process-Single :
      (now : ℕ) (x : Exchange) (n : Notification) (w : Worker) (s : Store)
      → Single (process render valid now x n w s)
  unfolding process delivery
  process-Single now x n w s =
      if_rule Single (is_submitted n.state) _ _
        (λ e.
          if_rule Single (not (is_relay_id n.relay_id)) _ _ (λ e'. omega arith) λ e'. omega arith)
        λ e. if_wanted-Single now n w s (s.wants n.project) _ (
          if_rule Single (str_eq n.payload "") _ _ (λ e'. go (render n.project n.event_json))
            λ e'. offer-Single now x n n.payload w s)
    where
      go : (o : Option String) → Single (rendered render valid now x n w s o)
      go none = omega arith
      go (some payload) =
          if_rule Single (valid payload) _ _
            (λ e. offer-Single now x n payload w (set_notification_payload n.id payload s))
            λ e. omega arith

  -- One pass of the loop: its notification, what it met outside, and the worker and the store that it
  -- found.
  pub record Round : Type 0 where
    pub notification : Notification
    pub exchange : Exchange
    pub worker : Worker
    pub store : Store

  -- The passes that the loop makes, as far as it gets.
  pub rounds : ℕ → List Notification → List (Option Exchange) → Worker → Store → List Round
  rounds now [] xs w s = []
  rounds now (n ∷ ns) [] w s = []
  rounds now (n ∷ ns) (none ∷ xs) w s = []
  rounds now (n ∷ ns) (some x ∷ xs) w s =
      let a = process render valid now x n w s in
      let rest = rounds now ns xs a.worker a.store in
      record { notification = n; exchange = x; worker = w; store = s }
      ∷ (if a.fails then [] else if ltb (unix now) a.worker.relay_next then [] else rest)

  abbrev pub IsRound : List Round → Round → Type 0
  IsRound [] r = ⊥
  IsRound (x ∷ rs) r = (x ≡ r) ⊎ IsRound rs r

  -- A submission for one of the notifications, in one of the passes.
  pub record IsFor (now : ℕ) (ns : List Notification) (rs : List Round) (p : Post) : Type 0 where
    pub round : Round
    pub made : IsRound rs round
    pub listed : Has ns round.notification
    pub posted :
        IsPosted render valid
          (at_gate now round.exchange round.notification round.worker round.store)
          round.exchange
          round.notification
          p

  abbrev pub Sends : ℕ → List Notification → List Round → Step → Type 0
  Sends now ns rs a = All (IsFor now ns rs) a.posts × (length a.posts ≤ length ns)

  one-Sends :
      (now : ℕ) (x : Exchange) (n : Notification) (ns : List Notification) (w : Worker) (s : Store)
      (rs : List Round)
      → Sends now
          (n ∷ ns)
          (record { notification = n; exchange = x; worker = w; store = s } ∷ rs)
          (process render valid now x n w s)
  one-Sends now x n ns w s rs = (
    All-map
        (λ p h. record {
          round = record { notification = n; exchange = x; worker = w; store = s };
          made = inl refl;
          listed = inl refl;
          posted = h;
        })
        (process render valid now x n w s).posts (process-IsPosted render valid now x n w s),
    omega (arith, process-Single now x n w s),
  )

  pick-Sends :
      (now : ℕ) (ns : List Notification) (r : Round) (later : List Round) (a more : Step)
      (fails late : Bool)
      → Sends now ns (r ∷ []) a
      → Sends now ns (r ∷ later) more
      → Sends now ns
          (r ∷ (if fails then [] else if late then [] else later))
          (if fails then a else if late then a else more)
  pick-Sends now ns r later a more true late h k = h
  pick-Sends now ns r later a more false true h k = h
  pick-Sends now ns r later a more false false h k = k

  process_all-Sends :
      (now : ℕ) (ns : List Notification) (xs : List (Option Exchange)) (w : Worker) (s : Store)
      → Sends now ns (rounds now ns xs w s) (process_all render valid now ns xs w s)
  unfolding process_all rounds
  process_all-Sends now [] xs w s = (tt, omega arith)
  process_all-Sends now (n ∷ ns) [] w s = (tt, omega arith)
  process_all-Sends now (n ∷ ns) (none ∷ xs) w s = (tt, omega arith)
  process_all-Sends now (n ∷ ns) (some x ∷ xs) w s =
      let a = process render valid now x n w s in
      let r : Round = record { notification = n; exchange = x; worker = w; store = s } in
      let rest = process_all-Sends now ns xs a.worker a.store in
      let b = process_all render valid now ns xs a.worker a.store in
      let later = rounds now ns xs a.worker a.store in
      let more : Step = record {
        worker = b.worker;
        store = b.store;
        posts = a.posts ++ b.posts;
        fails = b.fails;
      } in
      pick-Sends now (n ∷ ns) r later a more a.fails (ltb (unix now) a.worker.relay_next)
        (one-Sends now x n ns w s [])
        (
          All-append (IsFor now (n ∷ ns) (r ∷ later)) a.posts b.posts
              (one-Sends now x n ns w s later).0
              (All-map
                (λ p h. record {
                  round = h.round;
                  made = inr h.made;
                  listed = inr h.listed;
                  posted = h.posted;
                })
                b.posts rest.0),
          omega (arith, process-Single now x n w s, rest.1, length-append a.posts b.posts),
        )

  due_few : (now : ℕ) (s : Store) → length (due_notifications now 10 s) ≤ 10
  unfolding due_notifications
  due_few now s = omega (arith, length-take 10 (sort_due (keep _ s.outbox)))

  -- The passes of a sweep: over what is due after the pruning and the read of the route.
  abbrev pub due_after : ℕ → Response Route → Worker → Store → List Notification
  due_after now route w s =
      due_notifications (unix now) 10
        (verify_route now route w (prune_notifications (unix now) s)).store

  abbrev pub passes : ℕ → Response Route → List (Option Exchange) → Worker → Store → List Round
  passes now route xs w s =
      let v = verify_route now route w (prune_notifications (unix now) s) in
      rounds now (due_after now route w s) xs v.worker v.store

  -- What a sweep sends, whatever the relay answers.
  pub record IsBounded (now : ℕ) (route : Response Route) (xs : List (Option Exchange)) (w : Worker)
      (s : Store) (a : Step) : Type 0 where
    pub few : length a.posts ≤ 10
    pub rightly : All (IsFor now (due_after now route w s) (passes now route xs w s)) a.posts
    pub silent : (w.keyed ≡ false) ⊎ (ltb (unix now) w.relay_next ≡ true) → a.posts ≡ []

  silence :
      (now : ℕ) (route : Response Route) (xs : List (Option Exchange)) (w : Worker) (s : Store)
      (a : Step)
      → a.posts ≡ []
      → IsBounded now route xs w s a
  silence now route xs w s a e = record {
    few = omega (arith, ap length e);
    rightly =
        subst (All (IsFor now (due_after now route w s) (passes now route xs w s))) (sym e) tt;
    silent = λ h. e;
  }

  -- For any answers and any changes of the store, a sweep submits at most ten notifications; each
  -- submission belongs to a pass that the sweep makes, is for one of the notifications that are due after
  -- the pruning and the read of the route, and is as one may be for the worker and the store that this
  -- pass found: the route just confirmed, the queue and the preferences allowing it in the store at its
  -- gate, the event's key and the stored text; and none is made without a key or before the time until
  -- which the relay asked for silence.
  pub sweep-IsBounded :
      (now : ℕ) (route : Response Route) (xs : List (Option Exchange)) (w : Worker) (s : Store)
      → IsBounded now route xs w s (sweep render valid now route xs w s)
  unfolding sweep
  sweep-IsBounded now route xs w s =
      let pruned = prune_notifications (unix now) s in
      let v = verify_route now route w pruned in
      if_rule (IsBounded now route xs w s) (not w.keyed) _ _ (λ e. silence now route xs w s _ refl)
        λ keyed.
          if_rule (IsBounded now route xs w s) (ltb (unix now) w.relay_next) _ _
            (λ e. silence now route xs w s _ refl)
            λ later.
              let due = due_notifications (unix now) 10 v.store in
              let all = process_all-Sends now due xs v.worker v.store in
              record {
                few = omega (arith, all.1, due_few (unix now) v.store);
                rightly = all.0;
                silent = λ h. absurd (ground (arith, keyed, later, h));
              }
