-- ===== src/Startup/Tests.antt =====
-- A restart with an interrupted build and a channel with room for two.
use build_system.Prelude.{refl, false, [], ◌∷◌, some, All, arith}
use build_system.Models.Status.{running}
use build_system.Models.Project.{Project}
use build_system.Db.Builds.{Build}
use build_system.Db.Samples.{waiting_build, remote_project}
use build_system.Api.Intake.{Desk}
use build_system.Startup.{recover_orphaned_builds}
use build_system.Startup.Recovered.{IsRow}
use build_system.Startup.Requeued.{IsRestored, recover_orphaned_builds-IsRestored}

abbrev local_project : Project
local_project = record remote_project { executor = "local" }

abbrev interrupted : Build
interrupted = record (waiting_build 5) { status = running; started_at = some 3 }

abbrev old_desk : Desk
old_desk = record {
  db = record { builds = waiting_build 4 ∷ interrupted ∷ []; projects = local_project ∷ [] };
  build_ch = [];
  capacity = 2;
}

old-IsRow : All IsRow old_desk.db.builds
old-IsRow = (
  (
    record {
      stored = (refl, (refl, omega arith, omega arith, (refl, omega arith, omega arith, refl)));
      bounded = omega arith;
      waiting = λ e. (refl, refl);
      working = λ e. refl;
    },
    refl,
  ),
  (
    (
      record {
        stored = (refl, (refl, omega arith, omega arith, (refl, omega arith, omega arith, refl)));
        bounded = omega arith;
        waiting = λ e. absurd (cc e);
        working = λ e. refl;
      },
      refl,
    ),
    tt,
  ),
)

recover_orphaned_builds-IsRestored_example :
    IsRestored (λ b. false) 10 11 old_desk (recover_orphaned_builds (λ b. false) 10 11 old_desk)
recover_orphaned_builds-IsRestored_example =
    recover_orphaned_builds-IsRestored (λ b. false) 10 11 old_desk old-IsRow
