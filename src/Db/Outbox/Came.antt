-- ===== src/Db/Outbox/Came.antt =====
-- What becomes of the whole queue under its statements.
use build_system.Prelude.{
  ℕ, ◌≡◌, ◌⊎◌, subst, refl, inl, inr, not, ◌&&◌, List, [], ◌∷◌, ◌++◌, All-append, Option, none,
  some, length, arith, map, All, All-map, ◌==◌, if_rule, keep-All,
}
use mathlib.Core.List.{append_assoc}
use build_system.Db.Outbox.{
  muted, suppressed, Notification, Store, on_id, set_notification_payload, update_notification,
  record_notification_acceptance, notification_can_submit, set_telegram_capture, set_project_switch,
  aged, capped, prune_notifications,
}
use build_system.Db.Outbox.{Preferences, every, allowed}
use build_system.Db.Outbox.Observed.{
  Observation, new_row, observe_event, suppressed_by, preferences_of, merged, saved,
  update_agent_preferences,
}
use build_system.Db.Outbox.Follows.{
  Follows, Follows-refl, Follows-trans, Statement, accepted-Follows, accepts, aged-Follows,
  captures, gated-Follows, gates, leave-Follows, payload-Follows, prunes, run_statement,
  run_statements, observes, prefers, deletes, suppressed-Follows, sets_payload, switches,
  updated-Follows, updates,
}

abbrev pub Has : List Notification → Notification → Type 0
Has [] n = ⊥
Has (x ∷ xs) n = (x ≡ n) ⊎ Has xs n

-- Each row of the second queue was a row of the first.
pub record Came (old : List Notification) (m : Notification) : Type 0 where
  pub from : Notification
  pub listed : Has old from
  pub follows : Follows from m

Came-more :
    (x : Notification) (old : List Notification) (m : Notification) → Came old m → Came (x ∷ old) m
Came-more x old m h = record { from = h.from; listed = inr h.listed; follows = h.follows }

map-Came :
    (f : Notification → Notification) (ns : List Notification)
    → ((n : Notification) → Follows n (f n))
    → All (Came ns) (map f ns)
map-Came f [] h = tt
map-Came f (n ∷ ns) h = (
  record { from = n; listed = inl refl; follows = h n },
  All-map (Came-more n ns) (map f ns) (map-Came f ns h),
)

on_id-Came :
    (id : ℕ) (f : Notification → Notification) (ns : List Notification)
    → ((n : Notification) → Follows n (f n))
    → All (Came ns) (on_id id f ns)
unfolding on_id
on_id-Came id f [] h = tt
on_id-Came id f (n ∷ ns) h = (
  record {
    from = n;
    listed = inl refl;
    follows = if_rule (Follows n) (n.id == id) _ _ (λ e. h n) λ e. Follows-refl n;
  },
  All-map (Came-more n ns) (on_id id f ns) (on_id-Came id f ns h),
)

all_same : (ns : List Notification) → All (Came ns) ns
all_same [] = tt
all_same (n ∷ ns) = (
  record { from = n; listed = inl refl; follows = Follows-refl n },
  All-map (Came-more n ns) ns (all_same ns),
)

Has-Came :
    (old mid : List Notification) (n : Notification) → All (Came old) mid → Has mid n → Came old n
Has-Came old [] n h k = absurd k
Has-Came old (x ∷ mid) n h (inl e) = subst (Came old) e h.0
Has-Came old (x ∷ mid) n h (inr k) = Has-Came old mid n h.1 k

Came-trans :
    (old mid : List Notification) (m : Notification) → All (Came old) mid → Came mid m → Came old m
Came-trans old mid m h k =
    let first = Has-Came old mid k.from h k.listed in
    record {
      from = first.from;
      listed = first.listed;
      follows = Follows-trans first.from k.from m first.follows k.follows;
    }

Has-left : (old more : List Notification) (n : Notification) → Has old n → Has (old ++ more) n
Has-left [] more n h = absurd h
Has-left (x ∷ old) more n (inl e) = inl e
Has-left (x ∷ old) more n (inr h) = inr (Has-left old more n h)

Came-left : (old more : List Notification) (m : Notification) → Came old m → Came (old ++ more) m
Came-left old more m h = record {
  from = h.from;
  listed = Has-left old more h.from h.listed;
  follows = h.follows;
}

Came-right : (old more : List Notification) (m : Notification) → Came more m → Came (old ++ more) m
Came-right [] more m h = h
Came-right (x ∷ old) more m h = Came-more x (old ++ more) m (Came-right old more m h)

-- The row that a statement may record.
abbrev pub born_of : Statement → List Notification
born_of (observes e) = new_row e ∷ []
born_of _ = []

pub born : List Statement → List Notification
born [] = []
born (x ∷ xs) = born_of x ++ born xs

old-Came :
    (old more : List Notification) (ns : List Notification)
    → All (Came old) ns
    → All (Came (old ++ more)) ns
old-Came old more ns h = All-map {P = Came old} {Q = Came (old ++ more)} (Came-left old more) ns h

prefers-Came :
    (s : Store) (p : Preferences) (o : Option Preferences)
    → All (Came s.outbox) (saved s (every (suppressed_by p) s) o).outbox
prefers-Came s p none = all_same s.outbox
prefers-Came s p (some q) =
    let mid = map (suppressed_by p) s.outbox in
    All-map {P = Came mid} {Q = Came s.outbox}
      (λ m k. Came-trans s.outbox mid m (map-Came _ s.outbox (suppressed-Follows p)) k)
      (map (suppressed_by q) mid) (map-Came _ mid (suppressed-Follows q))

observes-Came :
    (e : Observation) (s : Store)
    → All (Came (s.outbox ++ new_row e ∷ [])) (observe_event e s).outbox
unfolding observe_event capped
observes-Came e s = keep-All _ _ _ (
    if_rule (λ l. All (Came (s.outbox ++ new_row e ∷ [])) l) (e.due && _ && allowed s (new_row e)) _
      _ (λ k. all_same (s.outbox ++ new_row e ∷ []))
      λ k. old-Came s.outbox (new_row e ∷ []) s.outbox (all_same s.outbox))

old_statement-Came :
    (x : Statement) (s : Store)
    → length (born_of x) ≡ 0
    → All (Came s.outbox) (run_statement x s).outbox
unfolding run_statement set_notification_payload update_notification record_notification_acceptance
    notification_can_submit set_telegram_capture set_project_switch prune_notifications capped
    update_agent_preferences
old_statement-Came (sets_payload id payload) s h =
    on_id-Came id _ s.outbox (payload-Follows payload)
old_statement-Came (updates id st relay attempts next) s h =
    on_id-Came id _ s.outbox (updated-Follows st relay attempts next)
old_statement-Came (accepts id st relay attempts next) s h =
    on_id-Came id _ s.outbox (accepted-Follows st relay attempts next)
old_statement-Came (gates id) s h = on_id-Came id _ s.outbox (gated-Follows s)
old_statement-Came (captures on) s h =
    if_rule (λ (x : Store). All (Came s.outbox) x.outbox) on _ _ (λ e. all_same s.outbox)
      λ e. map-Came _ s.outbox (leave-Follows suppressed)
old_statement-Came (switches project on) s h =
    if_rule (λ (x : Store). All (Came s.outbox) x.outbox) (not on && _) _ _
      (λ e. map-Came _ s.outbox (λ n.
        if_rule (Follows n) (n.project == project) _ _ (λ e'. leave-Follows muted n)
          (λ e'. Follows-refl n)))
      λ e. all_same s.outbox
old_statement-Came (prunes now) s h =
    keep-All _ _ _ (keep-All _ _ _ (map-Came (aged now) s.outbox (aged-Follows now)))
old_statement-Came (observes e) s h = absurd (omega (arith, h))
old_statement-Came (prefers name patch) s h =
    prefers-Came s (preferences_of name s.preferences)
      (merged patch (some (preferences_of name s.preferences)))
old_statement-Came (deletes gone) s h = keep-All _ _ _ (all_same s.outbox)

statement-Came :
    (x : Statement) (s : Store) → All (Came (s.outbox ++ born_of x)) (run_statement x s).outbox
unfolding run_statement
statement-Came (observes e) s = observes-Came e s
statement-Came x s = old-Came s.outbox (born_of x) _ (old_statement-Came x s refl)

-- Whatever statements of the running server write the queue, those that record builds and agents and the
-- save of an agent's preferences included, in any number and order, with any arguments: each row that is
-- there afterwards was there before or is one that these statements recorded, with the same id, key and
-- project; its payload is the same one if it had one, so all attempts of a row send the same bytes under
-- the same key; and if it was delivered, failed or expired, it still is.
pub run_statements-Came :
    (xs : List Statement) (s : Store)
    → All (Came (s.outbox ++ born xs)) (run_statements xs s).outbox
unfolding run_statements born
run_statements-Came [] s = old-Came s.outbox [] s.outbox (all_same s.outbox)
run_statements-Came (x ∷ xs) s =
    let mid = (run_statement x s).outbox in
    let all = s.outbox ++ (born_of x ++ born xs) in
    let earlier : All (Came all) mid =
      All-map {P = Came (s.outbox ++ born_of x)} {Q = Came all}
        (λ m k.
          subst (λ l. Came l m) (append_assoc s.outbox (born_of x) (born xs))
            (Came-left (s.outbox ++ born_of x) (born xs) m k))
        mid (statement-Came x s) in
    let later : All (Came all) (born xs) =
      All-map {P = Came (born xs)} {Q = Came all}
        (λ m k. Came-right s.outbox (born_of x ++ born xs) m (Came-right (born_of x) (born xs) m k))
        (born xs) (all_same (born xs)) in
    All-map {P = Came (mid ++ born xs)} {Q = Came all}
      (λ m k.
        Came-trans all (mid ++ born xs) m (All-append (Came all) mid (born xs) earlier later) k)
      (run_statements xs (run_statement x s)).outbox (run_statements-Came xs (run_statement x s))
