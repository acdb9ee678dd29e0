-- ===== src/Runner/Worker/Tests.antt =====
-- A worker with a build, a user who cancels it, and a shutdown.
use build_system.Prelude.{◌≡◌, ◌≢◌, refl, inr, true, false, List, [], ◌∷◌}
use build_system.Models.Status.{pending, canceled}
use build_system.Db.Builds.{claim_build, with_note, finish_build}
use build_system.Db.BuildLog.{append_build_log, append_chunks, insert_chunk}
use build_system.Runner.Registry.{register, cancel, stop, sweep_stale}
use build_system.Runner.Worker.{
  Move, registers, tries_claim, opens, prints, closes, records, hands_back, shuts_down, leaves,
  janitor_sweeps, user_cancels, done, run_moves, move, on_current, answered,
}
use build_system.Runner.Worker.Samples.{waiting_world, waiting-IsOwned, busy_world, busy-IsOwned}
use build_system.Runner.Worker.Alone.{IsAlone, run_moves-IsAlone}
use build_system.Runner.Worker.Sticks.{cancel_sticks}

abbrev stopped_later : List Move
stopped_later = user_cancels 4 ∷ shuts_down ∷ closes false ∷ hands_back done ∷ []

abbrev a_day : List Move
a_day =
    registers 4
    ∷ tries_claim 10 done
    ∷ opens
    ∷ prints (8 ∷ 9 ∷ [])
    ∷ janitor_sweeps 0 90 (7 ∷ [])
    ∷ user_cancels 4
    ∷ shuts_down
    ∷ closes false
    ∷ records 12
    ∷ leaves
    ∷ []

-- The sweep passes over it, and the user's cancel comes before the shutdown.
a_day_test : (run_moves a_day waiting_world).build.status ≡ canceled
unfolding run_moves move on_current register answered claim_build stop cancel sweep_stale with_note
    append_build_log append_chunks insert_chunk finish_build
a_day_test = refl

run_moves-IsAlone_example : IsAlone waiting_world (run_moves a_day waiting_world)
run_moves-IsAlone_example = run_moves-IsAlone a_day waiting_world waiting-IsOwned

busy_hit : (cancel 4 busy_world.runner).1 ≡ true
unfolding cancel
busy_hit = refl

cancel_sticks_example : (run_moves stopped_later busy_world).build.status ≢ pending
cancel_sticks_example =
    cancel_sticks (shuts_down ∷ closes false ∷ hands_back done ∷ []) busy_world busy-IsOwned
      busy_hit (inr refl) refl
