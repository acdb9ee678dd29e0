-- ===== src/Db/Samples.antt =====
-- Two waiting builds, with logs, of a project for remote agents: the data of tests.
use build_system.Prelude.{ℕ, false, true, [], ◌∷◌, none, some}
use build_system.Prelude.Int.{pos}
use build_system.Models.Status.{pending}
use build_system.Models.Project.{Project}
use build_system.Db.BuildLog.{BuildLog}
use build_system.Db.Builds.{Build}
use build_system.Db.Queue.{Db}

-- A log with two legacy bytes and two chunks.
abbrev pub stored : BuildLog
stored = record {
  legacy = 1 ∷ 2 ∷ [];
  state = some (record { legacy_bytes = 2; total_bytes = 7 });
  chunks =
      record { byte_offset = 2; bytes = 3 ∷ 4 ∷ 5 ∷ [] }
      ∷ record { byte_offset = 5; bytes = 6 ∷ 7 ∷ [] }
      ∷ [];
}

abbrev pub waiting_build : ℕ → Build
waiting_build id = record {
  id = id;
  number = 1;
  project = 1;
  status = pending;
  commit_sha = "";
  requeues = 0;
  started_at = none;
  finished_at = none;
  created_at = id;
  agent = "";
  last_heartbeat_at = none;
  cancel_requested = false;
  log = stored;
}

abbrev pub remote_project : Project
remote_project = record {
  id = 1;
  name = "p";
  repo_url = "";
  branch = "main";
  webhook_secret = "";
  clone_token = "";
  executor = "mac";
  build_command = "make";
  build_path = "";
  upload_script = "";
  executor_profiles = [];
  poll_enabled = true;
  poll_interval_secs = pos 60;
  last_polled_sha = "";
}

abbrev pub two_builds : Db
two_builds = record {
  builds = waiting_build 4 ∷ waiting_build 5 ∷ [];
  projects = remote_project ∷ [];
}
