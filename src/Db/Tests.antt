-- ===== src/Db/Tests.antt =====
-- Two builds, their logs, and the theorems about the store at concrete rows.
use build_system.Prelude.{
  ℕ, ◌≡◌, ◌≢◌, ◌⊎◌, refl, String, true, false, List, [], ◌∷◌, ◌++◌, some, slice, arith,
}
use build_system.Db.Samples.{stored, waiting_build, two_builds}
use build_system.Models.Status.{running, success}
use build_system.Db.BuildLog.{build_log_slice}
use build_system.Db.BuildLog.Append.{IsStored, contents}
use build_system.Db.BuildLog.Slice.{build_log_slice_lem}
use build_system.Db.Builds.{Build, claim_for_agent}
use build_system.Db.Builds.Lifecycle.{Op, claims_for, uploads, finishes, cancels, IsSound}
use build_system.Db.Builds.Runs.{run_ops, run_ops_lem}
use build_system.Db.Queue.{
  Db, fail_stale_running, claim_build_for_agent, claim_candidate, claimable, oldest, find_project,
  find_build, at_row,
}
use build_system.Db.Queue.Claims.{claims_differ}
use build_system.Db.Queue.Sweep.{Rows, Swept, fail_stale_running_lem}

stored-IsStored : IsStored stored
stored-IsStored = (refl, (refl, omega arith, omega arith, (refl, omega arith, omega arith, refl)))

build_log_slice_lem_example :
    build_log_slice stored 1 5 ≡ slice (1 ∷ 2 ∷ 3 ∷ 4 ∷ 5 ∷ 6 ∷ 7 ∷ []) 1 5
build_log_slice_lem_example = build_log_slice_lem stored 1 5 stored-IsStored

waiting-IsSound : (id : ℕ) → IsSound (waiting_build id)
waiting-IsSound id = record {
  stored = stored-IsStored;
  bounded = omega arith;
  waiting = λ e. (refl, refl);
  working = λ e. refl;
}

abbrev a_run : List Op
a_run =
    claims_for 10 "a" ∷ uploads 11 "a" 7 (8 ∷ []) ∷ finishes 12 "a" success refl ∷ cancels 13 ∷ []

run_ops_lem_example :
    IsSound (run_ops a_run (waiting_build 4))
    × ((extra : List ℕ) × (contents (run_ops a_run (waiting_build 4)).log
          ≡ contents stored ++ extra))
    × ((false ≡ true) → run_ops a_run (waiting_build 4) ≡ waiting_build 4)
run_ops_lem_example = run_ops_lem a_run (waiting_build 4) (waiting-IsSound 4)

abbrev taken : ℕ → ℕ → String → Build
taken id now agent = record (waiting_build id) {
  status = running;
  started_at = some now;
  agent = agent;
  last_heartbeat_at = some now;
}

abbrev one_left : Db
one_left = record two_builds { builds = taken 4 10 "a" ∷ waiting_build 5 ∷ [] }

-- The older build goes first, and a local executor is offered in vain.
first_claim :
    claim_build_for_agent 10 "a" ("local" ∷ "mac" ∷ []) two_builds
    ≡ (one_left, some (taken 4 10 "a"))
unfolding claim_build_for_agent claim_candidate claimable oldest find_project find_build at_row
    claim_for_agent
first_claim = refl

claims_differ_example : (taken 4 10 "a").id ≢ (taken 5 11 "b").id
unfolding claim_build_for_agent claim_candidate claimable oldest find_project find_build at_row
    claim_for_agent
claims_differ_example =
    claims_differ 10 11 "a" "b" ("mac" ∷ []) ("mac" ∷ []) two_builds (taken 4 10 "a")
      (taken 5 11 "b") refl refl

fail_stale_running_lem_example :
    Rows
      (λ b b'. (b' ≡ b) ⊎ Swept 0 100 200 b b')
      (record (taken 4 10 "a") { agent = "" } ∷ waiting_build 5 ∷ [])
      (fail_stale_running 0 100 150 200
        (record (taken 4 10 "a") { agent = "" } ∷ waiting_build 5 ∷ []))
fail_stale_running_lem_example =
    fail_stale_running_lem 0 100 150 200
      (record (taken 4 10 "a") { agent = "" } ∷ waiting_build 5 ∷ [])
      (
        record {
          stored = stored-IsStored;
          bounded = omega arith;
          waiting = λ e. absurd (cc e);
          working = λ e. refl;
        },
        (waiting-IsSound 5, tt),
      )
