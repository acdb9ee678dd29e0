-- ===== src/Db/Outbox/Tests.antt =====
-- A queue through a payload, a refused write, a mute and a prune.
use build_system.Prelude.{◌≡◌, refl, true, false, List, [], ◌∷◌, ◌++◌, All, length}
use build_system.Db.Outbox.{submitted, failed, capped}
use build_system.Db.Outbox.Samples.{two_rows}
use build_system.Db.Outbox.Observed.{Observation, merged, observe_event, update_agent_preferences}
use build_system.Db.Outbox.Follows.{
  Statement, sets_payload, updates, switches, prunes, observes, prefers, run_statements,
}
use build_system.Db.Outbox.Came.{Came, born, run_statements-Came}

abbrev built : Observation
built = record {
  id = 3;
  project = 6;
  event_key = "i:build:9";
  event_json = "{}";
  payload = "";
  agent_name = "a";
  event_kind = "build";
  now = 150;
  due = true;
}

abbrev a_day : List Statement
a_day =
    sets_payload 1 "{2}"
    ∷ sets_payload 1 "{3}"
    ∷ updates 2 failed "" 3 120
    ∷ updates 1 submitted "" 1 130
    ∷ switches 5 false
    ∷ observes built
    ∷ prefers "a" (("builds", false) ∷ [])
    ∷ prunes 200
    ∷ []

run_statements-Came_example :
    All (Came (two_rows.outbox ++ born a_day)) (run_statements a_day two_rows).outbox
run_statements-Came_example = run_statements-Came a_day two_rows

-- The build is recorded.
recorded_test : length (observe_event built two_rows).outbox ≡ 3
unfolding observe_event capped
recorded_test = refl

-- An unknown key changes nothing.
unknown_test : update_agent_preferences "a" (("sounds", false) ∷ []) two_rows ≡ two_rows
unfolding update_agent_preferences merged
unknown_test = refl
