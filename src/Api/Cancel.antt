-- ===== src/Api/Cancel.antt =====
-- internal/api/api.go: `handleCancelBuild` for a build that exists, on its row, the worker and the log bus.
-- It makes several statements, and anything may happen between two of them: the arguments `first`, `then_moves`
-- and `last` are the moves that do. The checks of the request, and the driver's failures, are not modelled.
pub mod Answers
mod Tests
use build_system.Prelude.{
  ℕ, ◌-◌, String, Bool, true, false, not, ◌&&◌, List, [], Option, none, some, length, if◌then◌else◌,
}
use build_system.Prelude.Int.{pos}
use build_system.Models.Status.{
  BuildStatus, pending, running, success, failed, canceled, same_status, terminal,
}
use build_system.Logbus.{Bus, publish_at, publish_status}
use build_system.Db.BuildLog.{build_log_len}
use build_system.Db.Builds.{
  Build, Change, skip, rollback, write, is_local, canceled_note, cancel_pending_build,
  request_agent_cancel,
}
use build_system.Runner.Registry.{Runner, cancel}
use build_system.Runner.Worker.{World, Move, run_moves}

-- The answers: 200 with the status, 200 with `already`, the two of 202, the three of 409, and 500.
pub data CancelReply : Type 0 where
  now_canceled already_canceled canceling already_finished try_again broken : CancelReply
  canceling_on : String → CancelReply

pub record CancelOutcome : Type 0 where
  pub reply : CancelReply
  pub world : World
  pub bus : Bus

abbrev pub replied : CancelReply → World → Bus → CancelOutcome
replied r w bus = record { reply = r; world = w; bus = bus }

-- What follows the tombstone: the note at its place in the stored log, and the status.
unfoldable pub tell_canceled : ℕ → World → Bus → CancelOutcome
tell_canceled later w bus =
    let start = build_log_len w.build.log - length canceled_note in
    replied now_canceled w (
      publish_status (publish_at bus w.build.id (pos start) canceled_note) w.build.id canceled none
        (some later))

-- What follows the worker's word that it has the build.
unfoldable pub tell_canceling : World → Bus → CancelOutcome
tell_canceling w bus =
    if terminal w.build.status && not (same_status w.build.status canceled)
    then replied already_finished w bus
    else replied canceling w bus

abbrev pub flagged : String → World → Bus → Change → CancelOutcome
flagged agent w bus skip = replied try_again w bus
flagged agent w bus rollback = replied broken w bus
flagged agent w bus (write b) = replied (canceling_on agent) (record w { build = b }) bus

-- The cancel of a running build; the summary that it was read in names the agent.
unfoldable pub ask_agent : List Move → World → Bus → CancelOutcome
ask_agent last w bus =
    if is_local w.build
    then replied try_again w bus
    else let w' = run_moves last w in flagged w.build.agent w' bus (request_agent_cancel w'.build)

-- What follows where the worker does not have the build: the summary's status decides.
unfoldable pub look_up : BuildStatus → List Move → World → Bus → CancelOutcome
look_up canceled last w bus = replied already_canceled w bus
look_up success last w bus = replied already_finished w bus
look_up failed last w bus = replied already_finished w bus
look_up running last w bus = ask_agent last w bus
look_up pending last w bus = replied try_again w bus

unfoldable pub ask_worker : List Move → List Move → World → Bus → Runner × Bool → CancelOutcome
ask_worker then_moves last w bus (r, true) =
    tell_canceling (run_moves then_moves (record w { runner = r })) bus
ask_worker then_moves last w bus (r, false) =
    let w' = run_moves then_moves w in look_up w'.build.status last w' bus

unfoldable pub tombstoned :
    ℕ → List Move → List Move → List Move → World → Bus → Change → CancelOutcome
tombstoned later first then_moves last w bus skip =
    let w' = run_moves first w in ask_worker then_moves last w' bus (cancel w'.build.id w'.runner)
tombstoned later first then_moves last w bus rollback = replied broken w bus
tombstoned later first then_moves last w bus (write b) =
    tell_canceled later (run_moves first (record w { build = b })) bus

-- `handleCancelBuild`, with the instants of the tombstone and of what is published of it.
unfoldable pub handle_cancel_build :
    ℕ → ℕ → List Move → List Move → List Move → World → Bus → CancelOutcome
handle_cancel_build now later first then_moves last w bus =
    tombstoned later first then_moves last w bus (cancel_pending_build now w.build)
