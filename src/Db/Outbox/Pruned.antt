-- ===== src/Db/Outbox/Pruned.antt =====
-- The size of the queue.
use build_system.Prelude.{
  ℕ, ◌+◌, ◌-◌, ◌≤◌, ◌≡◌, ◌∙◌, ap, sym, refl, inl, inr, Bool, true, not, Bool-cases, List, [], ◌∷◌,
  ◌++◌, length, length-drop, take, drop, take-append-drop, keep, map, contains, All, All-map, arith,
}
use build_system.Db.Outbox.{
  Notification, Store, is_open, ids, by_need, capped, fresh, aged, prune_notifications,
}

keep_shorter : (p : Notification → Bool) (ns : List Notification) → length (keep p ns) ≤ length ns
keep_shorter p [] = omega arith
keep_shorter p (n ∷ ns) = ground (arith, keep_shorter p ns)

keep-append :
    (p : Notification → Bool) (xs ys : List Notification)
    → length (keep p (xs ++ ys)) ≡ length (keep p xs) + length (keep p ys)
keep-append p [] ys = omega arith
keep-append p (x ∷ xs) ys = ground (arith, keep-append p xs ys)

split_count :
    (p q : Notification → Bool) (ns : List Notification)
    → length (keep p (keep (λ n. not (q n)) ns)) + length (keep p (keep q ns)) ≡ length (keep p ns)
split_count p q [] = omega arith
split_count p q (n ∷ ns) = elim (Bool-cases (q n)) [
  | inl e ↦ ground (arith, e, split_count p q ns)
  | inr e ↦ ground (arith, e, split_count p q ns)
]

-- Nothing is lost in the order of need.
by_need_count :
    (p : Notification → Bool) (ns : List Notification)
    → length (keep p (by_need ns)) ≡ length (keep p ns)
by_need_count p ns =
    keep-append p (keep (λ n. not (is_open n.state)) ns) (keep (λ n. is_open n.state) ns)
    ∙ split_count p (λ n. is_open n.state) ns

keep_all : (ns : List Notification) → keep (λ n. true) ns ≡ ns
keep_all [] = refl
keep_all (n ∷ ns) = ap (◌∷◌ n) (keep_all ns)

length-by_need : (ns : List Notification) → length (by_need ns) ≡ length ns
length-by_need ns =
    ap length (sym (keep_all (by_need ns))) ∙ by_need_count (λ n. true) ns ∙ ap length (keep_all ns)

-- Each of the rows is among the doomed ones.
contains_each :
    (n : Notification) (ds : List Notification)
    → All (λ (m : Notification). contains m.id (ids ds) ≡ true) ds
    → All (λ (m : Notification). contains m.id (ids (n ∷ ds)) ≡ true) ds
contains_each n ds h = All-map (λ m k. ground (arith, k)) ds h

all_doomed : (ds : List Notification) → All (λ (m : Notification). contains m.id (ids ds) ≡ true) ds
all_doomed [] = tt
all_doomed (n ∷ ds) = (ground arith, contains_each n ds (all_doomed ds))

none_kept :
    (p : Notification → Bool) (ds : List Notification)
    → All (λ m. p m ≡ true) ds
    → length (keep (λ m. not (p m)) ds) ≡ 0
none_kept p [] h = refl
none_kept p (n ∷ ds) h = ground (arith, h.0, none_kept p ds h.1)

capped_length : (ns : List Notification) → length (capped ns) ≤ 1000
unfolding capped
capped_length ns =
    let k = length ns - 1000 in
    let need = by_need ns in
    let doomed = ids (take k need) in
    let p = λ (n : Notification). contains n.id doomed in
    let q = λ (n : Notification). not (p n) in
    let all : length (keep q need) ≡ length (keep q (take k need ++ drop k need)) =
      ap (λ l. length (keep q l)) (sym (take-append-drop k need)) in
    omega (
      arith,
      by_need_count q ns,
      all,
      keep-append q (take k need) (drop k need),
      none_kept p (take k need) (all_doomed (take k need)),
      keep_shorter q (drop k need),
      length-drop k need,
      length-by_need ns,
    )

-- After a prune the queue has at most 1000 rows, whatever is in it and whatever has failed before.
pub prune_notifications_bounded :
    (now : ℕ) (s : Store) → length (prune_notifications now s).outbox ≤ 1000
unfolding prune_notifications
prune_notifications_bounded now s = capped_length (keep (fresh now) (map (aged now) s.outbox))
