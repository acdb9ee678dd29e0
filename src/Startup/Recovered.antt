-- ===== src/Startup/Recovered.antt =====
-- The sweeps of a restart, row by row.
use build_system.Prelude.{
  ℕ, ◌≡◌, ap, sym, subst, refl, inl, inr, Bool, true, false, not, ◌&&◌, ◌||◌, List, [], ◌∷◌, ◌==◌,
  All, Bool-cases, if_rule, arith, All-map, keep-All,
}
use build_system.Models.Status.{pending, running, failed, same_status}
use build_system.Db.Builds.{
  Build, is, is_local, fail_stale, requeue_build_with_note, max_build_requeues, gives_up,
  stale_note,
}
use build_system.Db.Builds.Lifecycle.{Op, requeues, sweeps, run_op, IsSound, run_op-Follows}
use build_system.Db.Builds.Runs.{after, after-Follows}
use build_system.Db.Queue.{
  Db, at_row, StaleBuild, scan_stale, fail_each, fail_stale_running, requeue_each,
  requeue_stale_running,
}
use build_system.Db.Queue.Sweep.{fail_stale_failed}
use build_system.Db.Queue.Rows.{at_row-All}
use build_system.Runner.Worker.Owned.{after-same_id}
use build_system.Startup.{
  is_stamped, repair_interrupted_durations, delete_orphaned_builds, has_project, swept_rows,
}

-- A row of the local runner that is running.
abbrev pub is_left : Build → Bool
is_left b = is running b && is_local b

-- A sound row with a true id.
abbrev pub IsRow : Build → Type 0
IsRow b = IsSound b × (b.id == 0 ≡ false)

op-IsSound : (o : Op) (b : Build) → IsSound b → IsSound (after b (run_op o b))
op-IsSound o b h = (after-Follows b (run_op o b) h (run_op-Follows o b h)).0

op-IsRow : (o : Op) (b : Build) → IsRow b → IsRow (after b (run_op o b))
op-IsRow o b h = (
  op-IsSound o b h.0,
  subst (λ id. id == 0 ≡ false) (sym (after-same_id b (run_op o b) (run_op-Follows o b h.0))) h.1,
)

requeue_each-IsRow :
    (ids : List ℕ) (bs : List Build)
    → All IsRow bs
    → All IsRow (requeue_each max_build_requeues ids bs)
unfolding requeue_each run_op
requeue_each-IsRow [] bs h = h
requeue_each-IsRow (id ∷ ids) bs h =
    requeue_each-IsRow ids (at_row id (requeue_build_with_note max_build_requeues) bs) (
      at_row-All IsRow IsRow id (requeue_build_with_note max_build_requeues) bs
        (λ b k e. op-IsRow requeues b k) (λ b k e. k) h)

abbrev some_stale : ℕ → List StaleBuild → Bool
some_stale id [] = false
some_stale id (s ∷ stale) = id == s.id || some_stale id stale

-- What the sweep keeps of a row: it is sound, and if it is left running its id is among those to fail.
abbrev Caught : List StaleBuild → Build → Type 0
Caught stale b = IsSound b × (is_left b ≡ true → some_stale b.id stale ≡ true)

spared-clear :
    (floor now : ℕ) (note : List ℕ) (b : Build)
    → (is running b && gives_up floor now b) ≡ false
    → is_left (after b (fail_stale floor now note b)) ≡ false
unfolding fail_stale gives_up
spared-clear floor now note b e = ground (arith, e)

fail_stale-clears :
    (floor now : ℕ) (note : List ℕ) (b : Build)
    → IsSound b
    → is_left (after b (fail_stale floor now note b)) ≡ false
unfolding run_op
fail_stale-clears floor now note b h = elim (Bool-cases (is running b && gives_up floor now b)) [
  | inl e ↦
      let (over, follows) =
        fail_stale_failed floor now note b e (run_op-Follows (sweeps floor now note) b h) in
      ground (arith, over)
  | inr e ↦ spared-clear floor now note b e
]

-- The second loop of the sweep leaves no local row running that its first loop found.
fail_each-Caught :
    (floor now : ℕ) (stale : List StaleBuild) (bs : List Build)
    → All (Caught stale) bs
    → All (Caught []) (fail_each floor now stale bs)
unfolding fail_each run_op
fail_each-Caught floor now [] bs h = h
fail_each-Caught floor now (s ∷ stale) bs h =
    let op = fail_stale floor now s.note in
    fail_each-Caught floor now stale (at_row s.id op bs) (
      at_row-All (Caught (s ∷ stale)) (Caught stale) s.id op bs
        (λ b k e. (
          op-IsSound (sweeps floor now s.note) b k.0,
          λ l. absurd (cc (l, fail_stale-clears floor now s.note b k.0)),
        ))
        (λ b k e. (k.0, λ l. ground (arith, k.1 l, e))) h)

Caught-more :
    (s : StaleBuild) (stale : List StaleBuild) (bs : List Build)
    → All (Caught stale) bs
    → All (Caught (s ∷ stale)) bs
Caught-more s stale bs h =
    All-map {P = Caught stale} {Q = Caught (s ∷ stale)} (λ b k. (k.0, λ l. ground (arith, k.1 l)))
      bs h

-- The first loop finds every local row that is left running.
scan_stale-Caught :
    (floor now : ℕ) (bs : List Build) → All IsRow bs → All (Caught (scan_stale 0 floor now bs)) bs
unfolding scan_stale gives_up
scan_stale-Caught floor now [] h = tt
scan_stale-Caught floor now (b ∷ bs) h =
    let rest = scan_stale-Caught floor now bs h.1 in
    if_rule (λ stale. All (Caught stale) (b ∷ bs))
      (is running b && not (b.id == 0) && gives_up floor now b) _ _
      (λ e. (
        (h.0.0, λ l. ground arith),
        Caught-more (record { id = b.id; note = stale_note b }) (scan_stale 0 floor now bs) bs rest,
      ))
      λ e. ((h.0.0, λ l. ground (arith, e, l, h.0.1)), rest)

-- A sound row that is not left running.
abbrev pub IsClear : Build → Type 0
IsClear b = IsSound b × (is_left b ≡ false)

Caught-IsClear : (b : Build) → Caught [] b → IsClear b
Caught-IsClear b h = (h.0, ground (arith, h.1))

map-IsClear :
    (found : Build → Bool) (bs : List Build)
    → All IsClear bs
    → All IsClear (repair_interrupted_durations found bs)
unfolding repair_interrupted_durations
map-IsClear found [] h = tt
map-IsClear found (b ∷ bs) h = (
  if_rule IsClear (is failed b && is_stamped b.finished_at && found b) _ _
      (λ e. (
        record {
          stored = h.0.0.stored;
          bounded = h.0.0.bounded;
          waiting = λ k. absurd (ground (arith, e, ap (λ s. same_status s pending) k));
          working = λ k. refl;
        },
        h.0.1,
      ))
      λ e. h.0,
  map-IsClear found bs h.1,
)

-- The rows after the sweeps and the repairs.
pub swept_rows-IsClear :
    (found : Build → Bool) (now later : ℕ) (db : Db)
    → All IsRow db.builds
    → All IsClear (swept_rows found now later db)
unfolding swept_rows delete_orphaned_builds requeue_stale_running fail_stale_running
swept_rows-IsClear found now later db h =
    let rows = requeue_stale_running max_build_requeues db.builds in
    let swept = fail_stale_running 0 now now later rows in
    keep-All IsClear (has_project db.projects) (repair_interrupted_durations found swept) (
      map-IsClear found swept (
        All-map {P = Caught []} {Q = IsClear} Caught-IsClear swept (
          fail_each-Caught now later (scan_stale 0 now now rows) rows
            (scan_stale-Caught now now rows (requeue_each-IsRow _ db.builds h)))))
