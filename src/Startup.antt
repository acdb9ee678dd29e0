-- ===== src/Startup.antt =====
-- cmd/builds/main.go: `recoverOrphanedBuilds`, which puts the queue back together when the server starts,
-- before anything else runs. `found` is what buildLogContains answers for a row.
pub mod Recovered
pub mod Waiting
pub mod Requeued
mod Tests
use build_system.Prelude.{
  ℕ, Bool, true, false, not, ◌&&◌, ◌||◌, List, [], ◌∷◌, ◌++◌, map, Option, none, some, keep, ltb,
  ◌==◌, if◌then◌else◌,
}
use build_system.Prelude.Text.{codes}
use build_system.Models.Status.{pending, failed}
use build_system.Models.Agent.{remote}
use build_system.Models.Project.{Project}
use build_system.Db.Builds.{Build, is, max_build_requeues}
use build_system.Db.Queue.{Db, find_project, requeue_stale_running, fail_stale_running}
use build_system.Api.Intake.{Desk, with_rows, offer}

abbrev pub is_stamped : Option ℕ → Bool
is_stamped none = false
is_stamped (some t) = true

-- `RepairInterruptedDurations` on one row.
abbrev pub repaired : (Build → Bool) → Build → Build
repaired found b =
    if is failed b && is_stamped b.finished_at && found b
    then record b { finished_at = none }
    else b

unfoldable pub repair_interrupted_durations : (Build → Bool) → List Build → List Build
repair_interrupted_durations found bs = map (repaired found) bs

abbrev pub is_found : Option Project → Bool
is_found none = false
is_found (some p) = true

abbrev pub has_project : List Project → Build → Bool
has_project ps b = is_found (find_project b.project ps)

-- `DeleteOrphanedBuilds`.
unfoldable pub delete_orphaned_builds : List Project → List Build → List Build
delete_orphaned_builds ps bs = keep (has_project ps) bs

-- `ListBuildsByStatus` for pending rows, in the order of their creation.
unfoldable pub insert_created : Build → List Build → List Build
insert_created b [] = b ∷ []
insert_created b (c ∷ cs) =
    let rest = insert_created b cs in if ltb c.created_at b.created_at then c ∷ rest else b ∷ c ∷ cs

unfoldable pub sort_created : List Build → List Build
sort_created [] = []
sort_created (b ∷ bs) = insert_created b (sort_created bs)

unfoldable pub list_pending : Db → List Build
list_pending db = sort_created (keep (λ b. is pending b && has_project db.projects b) db.builds)

abbrev pub not_requeued : List ℕ
not_requeued = 10 ∷ codes "[ERROR] Build not re-queued after restart: queue is full" ++ 10 ∷ []

-- The executor of a listed row, from its join.
abbrev pub is_remote : Option Project → Bool
is_remote none = false
is_remote (some p) = remote p.executor

abbrev pub for_agents : List Project → Build → Bool
for_agents ps b = is_remote (find_project b.project ps)

-- The loop over the pending builds.
unfoldable pub requeue_pending : ℕ → List Build → Desk → Desk
requeue_pending now [] s = s
requeue_pending now (b ∷ bs) s =
    let skipped = requeue_pending now bs s in
    let sent = requeue_pending now bs (offer now not_requeued b.id s).0 in
    if for_agents s.db.projects b then skipped else sent

-- The rows after the sweeps and the repairs.
unfoldable pub swept_rows : (Build → Bool) → ℕ → ℕ → Db → List Build
swept_rows found now later db = delete_orphaned_builds db.projects (
    repair_interrupted_durations found
      (fail_stale_running 0 now now later (requeue_stale_running max_build_requeues db.builds)))

-- `recoverOrphanedBuilds`: the first sweep's floor is the instant of its first loop.
unfoldable pub recover_orphaned_builds : (Build → Bool) → ℕ → ℕ → Desk → Desk
recover_orphaned_builds found now later s =
    let s' = with_rows (swept_rows found now later s.db) s in
    requeue_pending later (list_pending s'.db) s'
