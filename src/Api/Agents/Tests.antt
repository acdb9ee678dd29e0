-- ===== src/Api/Agents/Tests.antt =====
-- An agent uploads, repeats the upload, and reports the end while another request cancels.
use build_system.Prelude.{refl, false, [], ◌∷◌, none, some, arith}
use build_system.Prelude.Int.{pos}
use build_system.Models.Status.{running, success}
use build_system.Logbus.{new_bus}
use build_system.Db.BuildLog.{BuildLog}
use build_system.Db.Builds.{Build}
use build_system.Db.Builds.Lifecycle.{asks_cancel, finishes, IsSound}
use build_system.Api.Agents.{stored, handle_agent_log, handle_agent_finish}
use build_system.Api.Agents.Upload.{IsRight}
use build_system.Api.Agents.Acknowledge.{handle_agent_log-IsRight}
use build_system.Api.Agents.Finish.{IsFinished, handle_agent_finish-IsFinished}

abbrev two_chunks : BuildLog
two_chunks = record {
  legacy = [];
  state = some (record { legacy_bytes = 0; total_bytes = 5 });
  chunks =
      record { byte_offset = 0; bytes = 3 ∷ 4 ∷ 5 ∷ [] }
      ∷ record { byte_offset = 3; bytes = 6 ∷ 7 ∷ [] }
      ∷ [];
}

abbrev held : Build
held = record {
  id = 4;
  number = 1;
  project = 1;
  status = running;
  commit_sha = "";
  requeues = 0;
  started_at = some 10;
  finished_at = none;
  created_at = 3;
  agent = "a";
  last_heartbeat_at = some 10;
  cancel_requested = false;
  log = two_chunks;
}

held-IsSound : IsSound held
held-IsSound = record {
  stored = (refl, (refl, omega arith, omega arith, (refl, omega arith, omega arith, refl)));
  bounded = omega arith;
  waiting = λ e. absurd (cc e);
  working = λ e. refl;
}

-- Two of the bytes are stored already, and a cancel is asked for in between.
handle_agent_log-IsRight_example :
    IsRight held 3
      (6 ∷ 7 ∷ 8 ∷ [])
      (handle_agent_log 20 (asks_cancel ∷ []) [] "a" (pos 3) (6 ∷ 7 ∷ 8 ∷ []) held new_bus)
handle_agent_log-IsRight_example =
    handle_agent_log-IsRight 20 (asks_cancel ∷ []) [] "a" 3 (6 ∷ 7 ∷ 8 ∷ []) held new_bus
      held-IsSound

handle_agent_finish-IsFinished_example : IsFinished held success (
    handle_agent_finish 30
      (asks_cancel ∷ [])
      (finishes 30 "a" success refl ∷ [])
      "a"
      success
      held
      new_bus)
handle_agent_finish-IsFinished_example =
    handle_agent_finish-IsFinished 30 (asks_cancel ∷ []) (finishes 30 "a" success refl ∷ []) "a"
      success held new_bus held-IsSound
