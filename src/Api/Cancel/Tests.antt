-- ===== src/Api/Cancel/Tests.antt =====
-- A cancel of a build that the worker claims in the meantime.
use build_system.Prelude.{◌≡◌, refl, false, List, [], ◌∷◌}
use build_system.Logbus.{new_bus}
use build_system.Runner.Registry.{cancel}
use build_system.Runner.Worker.{Move, prints, closes, records, run_moves, move, on_current}
use build_system.Runner.Worker.Samples.{busy_world, busy-IsOwned}
use build_system.Api.Cancel.{canceling, tombstoned, ask_worker, tell_canceling, handle_cancel_build}
use build_system.Db.BuildLog.{append_build_log, append_chunks, insert_chunk}
use build_system.Db.Builds.{cancel_pending_build, with_note, finish_build}
use build_system.Api.Cancel.Answers.{IsCancel, handle_cancel_build-IsCancel}

abbrev prints_meanwhile : List Move
prints_meanwhile = prints (8 ∷ []) ∷ []

handle_cancel_build-IsCancel_example :
    IsCancel prints_meanwhile (closes false ∷ records 21 ∷ []) 20 busy_world new_bus (
      handle_cancel_build 19 20 prints_meanwhile
        (closes false ∷ records 21 ∷ [])
        []
        busy_world
        new_bus)
handle_cancel_build-IsCancel_example =
    handle_cancel_build-IsCancel 19 20 prints_meanwhile (closes false ∷ records 21 ∷ []) []
      busy_world new_bus busy-IsOwned

-- The worker has it.
cancel_test :
    (handle_cancel_build 19 20 prints_meanwhile
      (closes false ∷ records 21 ∷ [])
      []
      busy_world
      new_bus).reply
    ≡ canceling
unfolding handle_cancel_build tombstoned cancel_pending_build ask_worker cancel run_moves move
    on_current with_note append_build_log append_chunks insert_chunk tell_canceling finish_build
cancel_test = refl
