-- ===== src/Poller/Tests.antt =====
-- A project whose branch moves, with a full channel.
use build_system.Prelude.{ℕ, refl, true, false, [], ◌∷◌}
use build_system.Prelude.Int.{pos}
use build_system.Models.Project.{Project}
use build_system.Db.Queue.{find_project}
use build_system.Poller.{
  Poller, Faults, tip, poll_project, poll_tip, queue_build, hand_over, update_poll_state,
}
use build_system.Poller.Once.{Distinct, poll_project-Distinct}
use build_system.Poller.Baseline.{IsCovered, poll_project-IsCovered}

abbrev watched_project : Project
watched_project = record {
  id = 1;
  name = "p";
  repo_url = "";
  branch = "main";
  webhook_secret = "";
  clone_token = "";
  executor = "local";
  build_command = "make";
  build_path = "";
  upload_script = "";
  executor_profiles = [];
  poll_enabled = true;
  poll_interval_secs = pos 60;
  last_polled_sha = "aaa";
}

abbrev full_poller : Poller
full_poller = record {
  db = record { builds = []; projects = watched_project ∷ [] };
  build_ch = 7 ∷ [];
  capacity = 1;
  due = [];
}

abbrev no_faults : Faults
no_faults = record {
  built_fails = false;
  active_fails = false;
  create_fails = false;
  touch_fails = false;
  note_fails = false;
}

-- Nothing else runs.
abbrev idle : ℕ → Poller → Poller
idle n s = s

poll_project-Distinct_example :
    Distinct (poll_project idle 5 no_faults 1 (tip "bbb") full_poller).db.builds
poll_project-Distinct_example =
    poll_project-Distinct idle 5 no_faults 1 "bbb" full_poller refl refl (λ n x h. h)
      (λ project n x h. h) tt

poll_project-IsCovered_example :
    IsCovered watched_project
      (record watched_project { last_polled_sha = "bbb" })
      (poll_project idle 5 no_faults 1 (tip "bbb") full_poller).db.builds
unfolding poll_project poll_tip queue_build hand_over update_poll_state find_project
poll_project-IsCovered_example =
    poll_project-IsCovered idle 5 no_faults 1 "bbb" full_poller watched_project
      (record watched_project { last_polled_sha = "bbb" }) refl (λ n x h. h) (λ n x h. h) refl refl
