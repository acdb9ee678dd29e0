-- ===== src/Runner/Worker/Samples.antt =====
-- A worker between two builds, and one that runs the build's commands: the data of tests.
use build_system.Prelude.{refl, true, false, some, arith}
use build_system.Models.Status.{running}
use build_system.Db.Samples.{waiting_build}
use build_system.Runner.Registry.{new_runner}
use build_system.Runner.Worker.{World, idle, executing}
use build_system.Runner.Worker.Owned.{IsOwned}

abbrev pub waiting_world : World
waiting_world = record { build = waiting_build 4; runner = new_runner; phase = idle; unfit = false }

pub waiting-IsOwned : IsOwned waiting_world
waiting-IsOwned = record {
  sound = record {
    stored = (refl, (refl, omega arith, omega arith, (refl, omega arith, omega arith, refl)));
    bounded = omega arith;
    waiting = λ e. (refl, refl);
    working = λ e. refl;
  };
  waiting = λ e. refl;
  held = λ e live. absurd (cc live);
  due = refl;
  remote = λ e. absurd (cc e);
}

abbrev pub busy_world : World
busy_world = record {
  build = record (waiting_build 4) { status = running; started_at = some 10 };
  runner = record new_runner { current_id = 4; cancel_current = true };
  phase = executing;
  unfit = false;
}

pub busy-IsOwned : IsOwned busy_world
busy-IsOwned = record {
  sound = record {
    stored = (refl, (refl, omega arith, omega arith, (refl, omega arith, omega arith, refl)));
    bounded = omega arith;
    waiting = λ e. absurd (cc e);
    working = λ e. refl;
  };
  waiting = λ e. refl;
  held = λ e live. refl;
  due = refl;
  remote = λ e. absurd (cc e);
}
