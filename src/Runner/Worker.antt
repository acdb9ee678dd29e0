-- ===== src/Runner/Worker.antt =====
-- internal/runner/runner.go: the worker, its cancel registry and the janitor, on the row of one build.
-- Every access to the registry holds the runner's mutex, and a sweep holds it throughout, so a move is
-- one such section or one statement; `others` are the statements of other requests on the row. Where
-- the worker has another build, the answer of its statement is an argument. The moves are those of one
-- process of the server: what its next start does with the rows is in Startup.
pub mod Owned
pub mod Rows
pub mod Turns
pub mod Moves
pub mod Runs
pub mod Alone
pub mod Started
pub mod Doomed
pub mod Sticks
pub mod Samples
mod Tests
use build_system.Prelude.{
  ℕ, ◌≡◌, String, Bool, true, false, not, ◌&&◌, ◌||◌, List, [], ◌∷◌, Option, none, some, ◌==◌,
  if◌then◌else◌,
}
use build_system.Prelude.Text.{str_eq}
use build_system.Models.Status.{BuildStatus, success, failed, canceled}
use build_system.Db.Builds.{
  Build, Change, skip, rollback, write, claim_build, claim_for_agent, finish_build, with_note,
  fail_stale, requeue_build_with_note, max_build_requeues,
}
use build_system.Db.Builds.Lifecycle.{
  Op, claims, claims_for, finishes, requeues, uploads, sweeps, run_op,
}
use build_system.Db.Builds.Runs.{after}
use build_system.Runner.Registry.{
  Cause, by_user, shut_down, timed_out, Runner, new_runner, with_cause, cancel, progress, set_step,
  stop, expire, register, unregister, sweep_stale,
}

-- Where the worker is: between two builds, before the claim, before `runBuild` has its project, with the
-- sink open, before the requeue, before the note that no requeue is left, before the last write, and after it.
pub data Phase : Type 0 where
  idle registered starting executing requeuing giving_up leaving : Phase
  ending : BuildStatus → Phase

-- The flag is raised while a claim handler has the build and cannot hand it out.
pub record World : Type 0 where
  pub build : Build
  pub runner : Runner
  pub phase : Phase
  pub unfit : Bool

-- What a statement comes back with.
pub data Answer : Type 0 where
  done refused broken : Answer

abbrev pub answer_of : Change → Answer
answer_of skip = refused
answer_of rollback = broken
answer_of (write b) = done

-- The way on from the commands: success, or what `fail` makes of the cause.
abbrev pub verdict : Bool → Option Cause → Phase
verdict true cause = ending success
verdict false none = ending failed
verdict false (some by_user) = ending canceled
verdict false (some shut_down) = requeuing
verdict false (some timed_out) = ending failed

-- The worker's statement on its current build.
unfoldable pub is_current : World → Bool
is_current w = w.build.id == w.runner.current_id

unfoldable pub on_current : World → (Build → Change) → Build
unfolding is_current
on_current w op = if is_current w then after w.build (op w.build) else w.build

unfoldable pub answered : World → (Build → Change) → Answer → Answer
unfolding is_current
answered w op a = if is_current w then answer_of (op w.build) else a

abbrev pub claimed : Answer → Phase
claimed done = starting
claimed _ = leaving

abbrev pub handed_back : Answer → Phase
handed_back refused = giving_up
handed_back _ = leaving

-- The statements of another request: what the agents, the poller and the API do to a row. The agent
-- handlers refuse an agent without a name.
abbrev pub is_foreign : Op → Bool
is_foreign (claims now) = false
is_foreign (claims_for now agent) = not (str_eq agent "")
is_foreign (finishes now agent s final) = not (str_eq agent "")
is_foreign requeues = false
is_foreign (uploads now agent expected bytes) = not (str_eq agent "")
is_foreign (sweeps floor now note) = false
is_foreign _ = true

pub data Move : Type 0 where
  registers : ℕ → Move
  tries_claim : ℕ → Answer → Move
  prints : List ℕ → Move
  closes : Bool → Move
  hands_back : Answer → Move
  explains : List ℕ → Move
  records : ℕ → Move
  opens breaks leaves times_out shuts_down : Move
  enters : String → Move
  user_cancels : ℕ → Move
  janitor_sweeps : ℕ → ℕ → List ℕ → Move
  others : (o : Op) → is_foreign o ≡ true → Move
  claims_unfit : ℕ → (agent : String) → not (str_eq agent "") ≡ true → Move
  drops_unfit : ℕ → Move

-- `process` up to the claim.
abbrev pub register_at : Phase → ℕ → World → World
register_at idle id w = record w { runner = register id w.runner; phase = registered }
register_at _ id w = w

abbrev pub claim_at : Phase → ℕ → Answer → World → World
claim_at registered now a w = record w {
  build = on_current w (claim_build now);
  phase = claimed (answered w (claim_build now) a);
}
claim_at _ now a w = w

-- The project is read, and the sink made.
abbrev pub open_at : Phase → World → World
open_at starting w = record w { phase = executing }
open_at _ w = w

-- A flush of the sink into the stored log, also the one of its close, which follows the look at the cause.
abbrev pub print_at : Phase → List ℕ → World → World
print_at executing bytes w = record w { build = on_current w (with_note bytes) }
print_at requeuing bytes w = record w { build = on_current w (with_note bytes) }
print_at (ending s) bytes w = record w { build = on_current w (with_note bytes) }
print_at _ bytes w = w

-- The end of the commands, or the start of `fail`.
abbrev pub close_at : Phase → Bool → World → World
close_at executing ok w = record w { phase = verdict ok w.runner.cause }
close_at _ ok w = w

-- The requeue of `fail`.
abbrev pub hand_back_at : Phase → Answer → World → World
hand_back_at requeuing a w = record w {
  build = on_current w (requeue_build_with_note max_build_requeues);
  phase = handed_back (answered w (requeue_build_with_note max_build_requeues) a);
}
hand_back_at _ a w = w

-- The append where no requeue is left, and the one where the project cannot be read.
abbrev pub explain_at : Phase → List ℕ → World → World
explain_at giving_up note w = record w {
  build = on_current w (with_note note);
  phase = ending failed;
}
explain_at starting note w = record w {
  build = on_current w (with_note note);
  phase = ending failed;
}
explain_at _ note w = w

-- `finish`.
abbrev pub record_at : Phase → ℕ → World → World
record_at (ending s) now w = record w { build = on_current w (finish_build now s); phase = leaving }
record_at _ now w = w

-- A failing statement ends `runBuild` with a line in the server's log only.
abbrev pub break_at : Phase → World → World
break_at idle w = w
break_at _ w = record w { phase = leaving }

abbrev pub leave_at : Phase → World → World
leave_at leaving w = record w { runner = unregister w.runner; phase = idle }
leave_at _ w = w

abbrev pub is_written : Change → Bool
is_written (write b) = true
is_written _ = false

-- The claim for an agent that the project turns out not to allow, and the FinishBuild that follows it in
-- `handleAgentClaim`, which has no condition.
unfoldable pub claim_unfit : ℕ → String → World → World
claim_unfit now agent w = record w {
  build = after w.build (claim_for_agent now agent w.build);
  unfit = w.unfit || is_written (claim_for_agent now agent w.build);
}

unfoldable pub drop_unfit : ℕ → World → World
drop_unfit now w =
    if w.unfit
    then record w { build = after w.build (finish_build now failed w.build); unfit = false }
    else w

unfoldable pub move : Move → World → World
move (registers id) w = register_at w.phase id w
move (tries_claim now a) w = claim_at w.phase now a w
move opens w = open_at w.phase w
move (prints bytes) w = print_at w.phase bytes w
move (closes ok) w = close_at w.phase ok w
move (hands_back a) w = hand_back_at w.phase a w
move (explains note) w = explain_at w.phase note w
move (records now) w = record_at w.phase now w
move breaks w = break_at w.phase w
move leaves w = leave_at w.phase w
move times_out w = record w { runner = expire w.runner }
move shuts_down w = record w { runner = stop w.runner }
move (enters step) w = record w { runner = set_step step w.runner }
move (user_cancels id) w = record w { runner = (cancel id w.runner).0 }
move (janitor_sweeps floor now note) w = record w {
  build = after w.build (sweep_stale floor now note w.runner w.build);
}
move (others o foreign) w = record w { build = after w.build (run_op o w.build) }
move (claims_unfit now agent named) w = claim_unfit now agent w
move (drops_unfit now) w = drop_unfit now w

unfoldable pub run_moves : List Move → World → World
run_moves [] w = w
run_moves (m ∷ ms) w = run_moves ms (move m w)
