-- ===== src/Runner/Registry.antt =====
-- internal/runner/runner.go: the fields of `Runner` under its mutex, and the sections that hold it.
use build_system.Prelude.{
  ℕ, String, Bool, true, false, ◌&&◌, List, Option, none, some, ◌==◌, if◌then◌else◌,
}
use build_system.Db.Builds.{Build, Change, skip, fail_stale}

-- `context.Cause` of the build's context.
pub data Cause : Type 0 where
  by_user shut_down timed_out : Cause

-- The fields of `Runner` under its mutex, with whether its own context is done. `cancelCurrent` is kept
-- as whether it is set.
pub record Runner : Type 0 where
  pub current_id : ℕ
  pub current_step : String
  pub cancel_current : Bool
  pub cause : Option Cause
  pub stopped : Bool

abbrev pub new_runner : Runner
new_runner = record {
  current_id = 0;
  current_step = "";
  cancel_current = false;
  cause = none;
  stopped = false;
}

-- A context keeps its first cause.
abbrev pub with_cause : Cause → Option Cause → Option Cause
with_cause c none = some c
with_cause c (some d) = some d

-- `Cancel`.
unfoldable pub cancel : ℕ → Runner → Runner × Bool
cancel id r =
    if r.current_id == id && r.cancel_current
    then (record r { cause = with_cause by_user r.cause }, true)
    else (r, false)

-- `Progress`.
unfoldable pub progress : ℕ → Runner → Option String
progress id r = if r.current_id == id then some r.current_step else none

-- `setStep`.
unfoldable pub set_step : String → Runner → Runner
set_step step r = record r { current_step = step }

-- `Stop`, and the end of the time for a build.
unfoldable pub stop : Runner → Runner
stop r = record r { stopped = true; cause = with_cause shut_down r.cause }

unfoldable pub expire : Runner → Runner
expire r = record r { cause = with_cause timed_out r.cause }

-- The two locked sections of `process`.
unfoldable pub register : ℕ → Runner → Runner
register id r = record r {
  current_id = id;
  cancel_current = true;
  cause = if r.stopped then some shut_down else none;
}

unfoldable pub unregister : Runner → Runner
unregister r = record r { current_id = 0; current_step = ""; cancel_current = false }

-- `SweepStale` on one row that its scan found stale.
unfoldable pub sweep_stale : ℕ → ℕ → List ℕ → Runner → Build → Change
sweep_stale floor now note r b = if b.id == r.current_id then skip else fail_stale floor now note b
