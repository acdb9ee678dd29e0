-- ===== src/Db/Outbox/Samples.antt =====
-- A queue with one notification that waits and one that was delivered: the data of tests.
use build_system.Prelude.{true, [], ◌∷◌, some}
use build_system.Db.Outbox.{Notification, Store, pending, delivered}

abbrev pub waiting_row : Notification
waiting_row = record {
  id = 1;
  project = 5;
  event_key = "i:build:7";
  event_json = "{}";
  payload = "";
  agent_name = "a";
  event_kind = "build";
  state = pending;
  relay_id = "";
  attempts = 0;
  created_at = 100;
  next_attempt_at = 100;
}

abbrev pub delivered_row : Notification
delivered_row = record waiting_row {
  id = 2;
  event_key = "i:build:8";
  payload = "{1}";
  state = delivered;
}

abbrev pub two_rows : Store
two_rows = record {
  wants = λ p. some true;
  capture = true;
  preferences = [];
  outbox = waiting_row ∷ delivered_row ∷ [];
}
