-- ===== src/Startup/Waiting.antt =====
-- The rows that a restart keeps in the queue.
use build_system.Prelude.{
  ℕ, ◌+◌, ◌≤◌, ◌≡◌, ◌∙◌, ap, subst, refl, inl, inr, Bool, true, false, ◌&&◌, ◌||◌, List, [], ◌∷◌,
  ◌++◌, map, keep, length, length-append, ltb, ◌==◌, All, All-map, if_rule, arith, if◌then◌else◌,
}
use build_system.Models.Status.{pending, running, failed}
use build_system.Models.Project.{Project}
use build_system.Db.Builds.{
  Build, Change, skip, is, is_local, fail_stale, gives_up, requeue_build_with_note,
  max_build_requeues,
}
use build_system.Db.Builds.Runs.{after}
use build_system.Db.Queue.{
  Db, at_row, StaleBuild, fail_each, fail_stale_running, requeue_each, requeue_stale_running,
}
use build_system.Db.Queue.Claims.{Has, All-Has}
use build_system.Api.Intake.{Desk, offer}
use build_system.Startup.{
  is_stamped, repaired, repair_interrupted_durations, delete_orphaned_builds, has_project,
  for_agents, requeue_pending, swept_rows,
}

-- What `RequeueStaleRunning` makes of a row.
abbrev pub requeued_row : Build → Build
requeued_row b = after b (requeue_build_with_note max_build_requeues b)

-- A local build that the last process was running, with a requeue left.
abbrev pub is_interrupted : Build → Bool
is_interrupted b = is running b && ltb b.requeues max_build_requeues && is_local b

at_row-Has :
    (id : ℕ) (op : Build → Change) (bs : List Build) (b : Build)
    → Has bs b
    → Has (at_row id op bs) (if b.id == id then after b (op b) else b)
unfolding at_row
at_row-Has id op [] b h = absurd h
at_row-Has id op (x ∷ bs) b (inl e) =
    inl (ap (λ (y : Build). if y.id == id then after y (op y) else y) e)
at_row-Has id op (x ∷ bs) b (inr h) = inr (at_row-Has id op bs b h)

-- A row that the statement skips is still there.
skipped-Has :
    (id : ℕ) (op : Build → Change) (bs : List Build) (b : Build)
    → op b ≡ skip
    → Has bs b
    → Has (at_row id op bs) b
skipped-Has id op bs b e h =
    subst (Has (at_row id op bs))
      (if_rule (λ x. x ≡ b) (b.id == id) _ _ (λ k. ap (after b) e) (λ k. refl))
      (at_row-Has id op bs b h)

requeue-skips :
    (b : Build) → is pending b ≡ true → requeue_build_with_note max_build_requeues b ≡ skip
unfolding requeue_build_with_note
requeue-skips b h = ground (arith, h)

fail-skips :
    (floor now : ℕ) (note : List ℕ) (b : Build)
    → is pending b ≡ true
    → fail_stale floor now note b ≡ skip
unfolding fail_stale gives_up
fail-skips floor now note b h = ground (arith, h)

pending-Has :
    (ids : List ℕ) (bs : List Build) (b : Build)
    → is pending b ≡ true
    → Has bs b
    → Has (requeue_each max_build_requeues ids bs) b
unfolding requeue_each
pending-Has [] bs b h k = k
pending-Has (id ∷ ids) bs b h k =
    pending-Has ids (at_row id (requeue_build_with_note max_build_requeues) bs) b h
      (skipped-Has id (requeue_build_with_note max_build_requeues) bs b (requeue-skips b h) k)

abbrev some_id : ℕ → List ℕ → Bool
some_id n [] = false
some_id n (id ∷ ids) = n == id || some_id n ids

requeued-Has :
    (ids : List ℕ) (bs : List Build) (b : Build)
    → some_id b.id ids ≡ true
    → is pending (requeued_row b) ≡ true
    → Has bs b
    → Has (requeue_each max_build_requeues ids bs) (requeued_row b)
unfolding requeue_each
requeued-Has [] bs b m h k = absurd (cc m)
requeued-Has (id ∷ ids) bs b m h k =
    let op = requeue_build_with_note max_build_requeues in
    if_rule
      (λ (x : Build).
        Has (at_row id op bs) x
        → Has (requeue_each max_build_requeues ids (at_row id op bs)) (requeued_row b))
      (b.id == id) _ _ (λ e k'. pending-Has ids (at_row id op bs) (requeued_row b) h k')
      (λ e k'. requeued-Has ids (at_row id op bs) b (ground (arith, m, e)) h k')
      (at_row-Has id op bs b k)

listed_id :
    (p : Build → Bool) (bs : List Build) (b : Build)
    → p b ≡ true
    → Has bs b
    → some_id b.id (map (λ (x : Build). x.id) (keep p bs)) ≡ true
listed_id p [] b e h = absurd h
listed_id p (x ∷ bs) b e (inl same) =
    if_rule (λ l. some_id b.id (map (λ (y : Build). y.id) l) ≡ true) (p x) _ _
      (λ k. ground (arith, ap (λ (y : Build). y.id) same)) λ k. absurd (cc (k, ap p same, e))
listed_id p (x ∷ bs) b e (inr h) =
    if_rule (λ l. some_id b.id (map (λ (y : Build). y.id) l) ≡ true) (p x) _ _
      (λ k. ground (arith, listed_id p bs b e h)) λ k. listed_id p bs b e h

failed-Has :
    (floor now : ℕ) (stale : List StaleBuild) (bs : List Build) (b : Build)
    → is pending b ≡ true
    → Has bs b
    → Has (fail_each floor now stale bs) b
unfolding fail_each
failed-Has floor now [] bs b h k = k
failed-Has floor now (s ∷ stale) bs b h k =
    failed-Has floor now stale (at_row s.id (fail_stale floor now s.note) bs) b h
      (skipped-Has s.id (fail_stale floor now s.note) bs b (fail-skips floor now s.note b h) k)

repaired-Has :
    (found : Build → Bool) (bs : List Build) (b : Build)
    → is pending b ≡ true
    → Has bs b
    → Has (map (repaired found) bs) b
repaired-Has found [] b h k = absurd k
repaired-Has found (x ∷ bs) b h (inl e) = inl (
    ap (repaired found) e
    ∙ if_rule (λ y. y ≡ b) (is failed b && is_stamped b.finished_at && found b) _ _
        (λ k. absurd (ground (arith, k, h))) (λ k. refl))
repaired-Has found (x ∷ bs) b h (inr k) = inr (repaired-Has found bs b h k)

kept-Has :
    (p : Build → Bool) (bs : List Build) (b : Build) → p b ≡ true → Has bs b → Has (keep p bs) b
kept-Has p [] b e h = absurd h
kept-Has p (x ∷ bs) b e (inl same) =
    if_rule (λ l. Has l b) (p x) _ _ (λ k. inl same) λ k. absurd (cc (k, ap p same, e))
kept-Has p (x ∷ bs) b e (inr h) =
    if_rule (λ l. Has l b) (p x) _ _ (λ k. inr (kept-Has p bs b e h)) λ k. kept-Has p bs b e h

-- A row that waits after the requeues is there after the sweeps and the repairs.
swept-Has :
    (found : Build → Bool) (now later : ℕ) (db : Db) (b : Build)
    → is pending b ≡ true
    → has_project db.projects b ≡ true
    → Has (requeue_stale_running max_build_requeues db.builds) b
    → Has (swept_rows found now later db) b
unfolding swept_rows delete_orphaned_builds repair_interrupted_durations fail_stale_running
swept-Has found now later db b h p k =
    kept-Has (has_project db.projects) _ b p
      (repaired-Has found _ b h (failed-Has now later _ _ b h k))

-- The row still waits unchanged if it waited for a project that exists; and if it was interrupted, with a
-- requeue left whose note its log has room for, it waits as the requeue leaves it.
abbrev pub IsKept : List Project → List Build → Build → Type 0
IsKept ps rows b =
    ((is pending b && has_project ps b) ≡ true → Has rows b)
    × ((is_interrupted b && is pending (requeued_row b) && has_project ps (requeued_row b)) ≡ true
        → Has rows (requeued_row b))

row-IsKept :
    (found : Build → Bool) (now later : ℕ) (db : Db) (b : Build)
    → Has db.builds b
    → IsKept db.projects (swept_rows found now later db) b
unfolding requeue_stale_running
row-IsKept found now later db b k = (
  λ h.
      swept-Has found now later db b (ground (arith, h)) (ground (arith, h))
        (pending-Has _ db.builds b (ground (arith, h)) k),
  λ h. swept-Has found now later db (requeued_row b) (ground (arith, h)) (ground (arith, h)) (
      requeued-Has _ db.builds b (listed_id is_interrupted db.builds b (ground (arith, h)) k)
        (ground (arith, h)) k),
)

pub rows-IsKept :
    (found : Build → Bool) (now later : ℕ) (db : Db)
    → All (IsKept db.projects (swept_rows found now later db)) db.builds
rows-IsKept found now later db =
    All-map {P = Has db.builds} {Q = IsKept db.projects (swept_rows found now later db)}
      (row-IsKept found now later db) db.builds (All-Has db.builds)

-- With room for all, the loop only fills the channel.
pub requeue_pending-room :
    (now : ℕ) (xs : List Build) (s : Desk)
    → length s.build_ch + length xs ≤ s.capacity
    → (requeue_pending now xs s).db ≡ s.db
unfolding requeue_pending offer
requeue_pending-room now [] s h = refl
requeue_pending-room now (x ∷ xs) s h =
    if_rule (λ (r : Desk). r.db ≡ s.db) (for_agents s.db.projects x) _ _
      (λ far. requeue_pending-room now xs s (omega (arith, h)))
      λ near.
        if_rule (λ (o : Desk × Bool). (requeue_pending now xs o.0).db ≡ s.db)
          (ltb (length s.build_ch) s.capacity) _ _
          (λ room.
            requeue_pending-room now xs (record s { build_ch = s.build_ch ++ x.id ∷ [] })
              (omega (arith, h, length-append s.build_ch (x.id ∷ []))))
          λ full. absurd (ground (arith, full, h))
