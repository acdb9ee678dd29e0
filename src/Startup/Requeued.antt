-- ===== src/Startup/Requeued.antt =====
-- The channel of the local runner after a restart.
use build_system.Prelude.{
  ℕ, ◌+◌, ◌<◌, ◌⊎◌, inl, inr, Bool-cases, ◌≡◌, ◌∙◌, ap, sym, subst, refl, Bool, true, false, not,
  ◌&&◌, ◌||◌, List, [], ◌∷◌, ◌++◌, Option, none, some, length, keep, ltb, ◌==◌, All, if_rule, arith,
  All-map, All-both,
}
use build_system.Models.Status.{pending, failed}
use build_system.Models.Project.{Project}
use build_system.Db.Builds.{Build, is, fail_pending_build}
use build_system.Db.Builds.Lifecycle.{fails_pending, run_op, run_op-Follows}
use build_system.Db.Builds.Runs.{after, after-Follows}
use build_system.Db.Queue.{Db, find_project}
use build_system.Db.Queue.Rows.{at_row-All}
use build_system.Runner.Worker.Owned.{with_note-after}
use build_system.Api.Intake.{Desk, with_rows, offer}
use build_system.Api.Intake.Queued.{
  has_id, here, waits_here, IsSent, IsQueued, has_id-append, fail_pending-starts,
}
use build_system.Startup.{
  has_project, insert_created, sort_created, list_pending, not_requeued, for_agents,
  requeue_pending, swept_rows, recover_orphaned_builds, is_found, is_remote,
}
use build_system.Startup.Waiting.{IsKept, rows-IsKept, requeue_pending-room}
use build_system.Startup.Recovered.{is_left, IsRow, IsClear, swept_rows-IsClear}

abbrev some_near : List Project → ℕ → List Build → Bool
some_near ps id [] = false
some_near ps id (x ∷ xs) = (id == x.id && not (for_agents ps x)) || some_near ps id xs

-- A row that waits for the local runner is in the channel or still to be looked at.
abbrev Covered : List Project → List ℕ → List Build → Build → Type 0
Covered ps ch xs b =
    IsClear b × (waits_here ps b ≡ true → (has_id b.id ch || some_near ps b.id xs) ≡ true)

still_clear :
    (now : ℕ) (note : List ℕ) (b : Build)
    → is_left b ≡ false
    → is_left (after b (fail_pending_build now note b)) ≡ false
unfolding fail_pending_build
still_clear now note b h =
    if_rule (λ c. is_left (after b c) ≡ false) (is pending b) _ _
      (λ e.
        with_note-after (λ (x : Build). is_left x ≡ false) b
          (record b { status = failed; finished_at = some now }) note h (λ l. refl))
      λ e. h

failed-IsClear :
    (now : ℕ) (note : List ℕ) (b : Build)
    → IsClear b
    → IsClear (after b (fail_pending_build now note b))
unfolding run_op
failed-IsClear now note b h = (
  (after-Follows b (run_op (fails_pending now note) b) h.0
      (run_op-Follows (fails_pending now note) b h.0)).0,
  still_clear now note b h.1,
)

waits_pending : (ps : List Project) (b : Build) → waits_here ps b ≡ true → is pending b ≡ false → ⊥
unfolding waits_here
waits_pending ps b w e = ground (arith, w, e)

offer-projects :
    (now : ℕ) (note : List ℕ) (id : ℕ) (s : Desk)
    → (offer now note id s).0.db.projects ≡ s.db.projects
unfolding offer
offer-projects now note id s =
    if_rule (λ (o : Desk × Bool). o.0.db.projects ≡ s.db.projects)
      (ltb (length s.build_ch) s.capacity) _ _ (λ e. refl) λ e. refl

offer-Covered :
    (ps : List Project) (now : ℕ) (x : Build) (xs : List Build) (s : Desk)
    → s.db.projects ≡ ps
    → All (Covered ps s.build_ch (x ∷ xs)) s.db.builds
    → let s' = (offer now not_requeued x.id s).0 in All (Covered ps s'.build_ch xs) s'.db.builds
unfolding offer
offer-Covered ps now x xs s same h =
    let op = fail_pending_build now not_requeued in
    let Q = λ (o : Desk × Bool). All (Covered ps o.0.build_ch xs) o.0.db.builds in
    if_rule Q (ltb (length s.build_ch) s.capacity) _ _
      (λ room.
        All-map {P = Covered ps s.build_ch (x ∷ xs)} {Q = Covered ps (s.build_ch ++ x.id ∷ []) xs}
          (λ b k. (k.0, λ e. ground (arith, k.1 e, has_id-append b.id x.id s.build_ch))) s.db.builds
          h)
      λ full.
        at_row-All (Covered ps s.build_ch (x ∷ xs)) (Covered ps s.build_ch xs) x.id op s.db.builds
          (λ b k e. (
            failed-IsClear now not_requeued b k.0,
            λ w. absurd (
                waits_pending ps (after b (op b)) w
                  (fail_pending-starts now not_requeued b k.0.0.stored)),
          ))
          (λ b k e. (k.0, λ w. ground (arith, k.1 w, e))) h

requeue_pending-Covered :
    (ps : List Project) (now : ℕ) (xs : List Build) (s : Desk)
    → s.db.projects ≡ ps
    → All (Covered ps s.build_ch xs) s.db.builds
    → let s' = requeue_pending now xs s in
      All (Covered ps s'.build_ch []) s'.db.builds × (s'.db.projects ≡ ps)
unfolding requeue_pending
requeue_pending-Covered ps now [] s same h = (h, same)
requeue_pending-Covered ps now (x ∷ xs) s same h =
    let Q = λ (r : Desk). All (Covered ps r.build_ch []) r.db.builds × (r.db.projects ≡ ps) in
    if_rule Q (for_agents s.db.projects x) _ _
      (λ far. requeue_pending-Covered ps now xs s same (
        All-map {P = Covered ps s.build_ch (x ∷ xs)} {Q = Covered ps s.build_ch xs}
          (λ b k. (k.0, λ w. ground (arith, k.1 w, far, ap (λ ps. for_agents ps x) same)))
          s.db.builds h))
      λ near.
        requeue_pending-Covered ps now xs (offer now not_requeued x.id s).0
          (offer-projects now not_requeued x.id s ∙ same) (offer-Covered ps now x xs s same h)

some_near-insert :
    (ps : List Project) (id : ℕ) (b : Build) (bs : List Build)
    → some_near ps id (insert_created b bs) ≡ some_near ps id (b ∷ bs)
unfolding insert_created
some_near-insert ps id b [] = refl
some_near-insert ps id b (c ∷ cs) =
    if_rule (λ l. some_near ps id l ≡ some_near ps id (b ∷ c ∷ cs)) (ltb c.created_at b.created_at)
      _ _ (λ e. ground (arith, some_near-insert ps id b cs)) λ e. refl

some_near-sort :
    (ps : List Project) (id : ℕ) (bs : List Build)
    → some_near ps id (sort_created bs) ≡ some_near ps id bs
unfolding sort_created
some_near-sort ps id [] = refl
some_near-sort ps id (b ∷ bs) =
    some_near-insert ps id b (sort_created bs)
    ∙ ap (λ t. (id == b.id && not (for_agents ps b)) || t) (some_near-sort ps id bs)

here-near : (o : Option Project) → here o ≡ true → (is_found o ≡ true) × (is_remote o ≡ false)
here-near none h = absurd (cc h)
here-near (some p) h = (refl, ground (arith, h))

-- A row that waits here is listed.
waits_near :
    (ps : List Project) (b : Build)
    → waits_here ps b ≡ true
    → ((is pending b && has_project ps b) ≡ true) × (for_agents ps b ≡ false)
unfolding waits_here
waits_near ps b w =
    let near = here-near (find_project b.project ps) (ground (arith, w)) in
    (ground (arith, w, near.0), near.1)

abbrev is_listed : List Project → Build → Bool
is_listed ps b = is pending b && has_project ps b

listed_near :
    (ps : List Project) (bs : List Build)
    → All (λ b. waits_here ps b ≡ true → some_near ps b.id (keep (is_listed ps) bs) ≡ true) bs
listed_near ps [] = tt
listed_near ps (b ∷ bs) = (
  if_rule (λ l. waits_here ps b ≡ true → some_near ps b.id l ≡ true) (is_listed ps b) _ _
      (λ e w. ground (arith, (waits_near ps b w).1))
      (λ e w. absurd (cc (e, (waits_near ps b w).0))),
  All-map {P = λ x. waits_here ps x ≡ true → some_near ps x.id (keep (is_listed ps) bs) ≡ true}
      {Q = λ x. waits_here ps x ≡ true → some_near ps x.id (keep (is_listed ps) (b ∷ bs)) ≡ true}
      (λ x h w.
        if_rule (λ l. some_near ps x.id l ≡ true) (is_listed ps b) _ _ (λ e. ground (arith, h w))
          λ e. h w)
      bs (listed_near ps bs),
)

-- No row is left running, and each one that waits here is in the channel.
recover_orphaned_builds-IsQueued :
    (found : Build → Bool) (now later : ℕ) (s : Desk)
    → All IsRow s.db.builds
    → let s' = recover_orphaned_builds found now later s in
      All IsClear s'.db.builds × IsQueued (λ id. false) s'
unfolding recover_orphaned_builds list_pending
recover_orphaned_builds-IsQueued found now later s h =
    let ps = s.db.projects in
    let rows = swept_rows found now later s.db in
    let xs = list_pending (with_rows rows s).db in
    let clear = swept_rows-IsClear found now later s.db h in
    let start : All (Covered ps s.build_ch xs) rows =
      All-map
        {P = λ b.
          IsClear b
          × (waits_here ps b ≡ true → some_near ps b.id (keep (is_listed ps) rows) ≡ true)}
        {Q = Covered ps s.build_ch xs}
        (λ b k.
          (k.0, λ w. ground (arith, k.1 w, some_near-sort ps b.id (keep (is_listed ps) rows))))
        rows (All-both IsClear _ rows clear (listed_near ps rows)) in
    let (all, same) = requeue_pending-Covered ps later xs (with_rows rows s) refl start in
    let s' = requeue_pending later xs (with_rows rows s) in
    (
      All-map {P = Covered ps s'.build_ch []} {Q = IsClear} (λ b k. k.0) s'.db.builds all,
      subst (λ q. All (IsSent (λ id. false) q s'.build_ch) s'.db.builds) (sym same)
          (All-map {P = Covered ps s'.build_ch []} {Q = IsSent (λ id. false) ps s'.build_ch}
            (λ b k. k.1) s'.db.builds all),
    )

-- The rows that the loop looks at.
abbrev pub to_queue : (Build → Bool) → ℕ → ℕ → Desk → List Build
to_queue found now later s = list_pending (with_rows (swept_rows found now later s.db) s).db

-- What a restart makes of the store and the channel.
pub record IsRestored (found : Build → Bool) (now later : ℕ) (s s' : Desk) : Type 0 where
  pub clear : All IsClear s'.db.builds
  pub queued : IsQueued (λ id. false) s'
  pub kept :
      (s.capacity < length s.build_ch + length (to_queue found now later s))
      ⊎ All (IsKept s.db.projects s'.db.builds) s.db.builds

rows_after :
    (found : Build → Bool) (now later : ℕ) (s : Desk)
    → (s.capacity < length s.build_ch + length (to_queue found now later s))
      ⊎ All (IsKept s.db.projects (recover_orphaned_builds found now later s).db.builds) s.db.builds
unfolding recover_orphaned_builds
rows_after found now later s =
    let xs = to_queue found now later s in
    let s' = with_rows (swept_rows found now later s.db) s in
    elim (Bool-cases (ltb s.capacity (length s.build_ch + length xs))) [
      | inl e ↦ inl (ground (arith, e))
      | inr e ↦ inr (
          subst (λ (db : Db). All (IsKept s.db.projects db.builds) s.db.builds)
            (sym (requeue_pending-room later xs s' (ground (arith, e))))
            (rows-IsKept found now later s.db))
    ]

-- After a restart, whatever the clock, the capacity of the channel and the earlier repairs: every row is
-- sound, no build without an agent is running, and every pending build of a project for the local runner
-- is in the runner's channel. If the channel has room for all pending builds that have a project, each
-- row that waited is still there, unchanged, and each local build that was interrupted with a requeue
-- left waits again, as the requeue leaves it, where that could write its note and the project exists.
pub recover_orphaned_builds-IsRestored :
    (found : Build → Bool) (now later : ℕ) (s : Desk)
    → All IsRow s.db.builds
    → IsRestored found now later s (recover_orphaned_builds found now later s)
recover_orphaned_builds-IsRestored found now later s h =
    let (clear, queued) = recover_orphaned_builds-IsQueued found now later s h in
    record { clear = clear; queued = queued; kept = rows_after found now later s }
