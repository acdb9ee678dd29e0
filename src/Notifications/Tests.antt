-- ===== src/Notifications/Tests.antt =====
-- A relay that confirms its route and takes a submission.
use build_system.Prelude.{
  ℕ, ◌≡◌, refl, String, Bool, true, false, [], ◌∷◌, All, Option, none, some, length,
}
use build_system.Db.Outbox.{
  notification_can_submit, set_notification_payload, on_id, set_telegram_capture,
}
use build_system.Db.Outbox.Samples.{waiting_row, two_rows}
use build_system.Notifications.Relay.{
  Response, Route, Worker, answered, decoded, verify_route, request,
}
use build_system.Notifications.Worker.{Exchange, waiting, process, sweep, offer, submit}
use build_system.Notifications.Posts.{IsPosted, at_gate, process-IsPosted}
use build_system.Notifications.Sweeps.{IsBounded, sweep-IsBounded}

abbrev group_route : Response Route
group_route =
    answered 200 none
      (decoded (record { configured = some true; group = some true; preserve_title = some false }))

abbrev idle : Worker
idle = record {
  keyed = true;
  relay_next = 0;
  route_attempts = 0;
  route_next = 0;
  configured = false;
  verified_at = 0;
}

abbrev takes : Exchange
takes = record {
  route = group_route;
  meanwhile = λ s. s;
  submission =
      answered 202 none
        (decoded (record { id = "0123456789abcdef0123456789abcdef"; status = waiting }));
  during = λ s. s;
}

abbrev text_of : ℕ → String → Option String
text_of project event = some "{4}"

abbrev any_text : String → Bool
any_text payload = true

process-IsPosted_example :
    All
      (IsPosted text_of any_text
        (at_gate 200_000_000_000 takes waiting_row idle two_rows)
        takes
        waiting_row)
      (process text_of any_text 200_000_000_000 takes waiting_row idle two_rows).posts
process-IsPosted_example =
    process-IsPosted text_of any_text 200_000_000_000 takes waiting_row idle two_rows

sweep-IsBounded_example :
    IsBounded text_of any_text 200_000_000_000 group_route
      (some takes ∷ [])
      idle
      two_rows
      (sweep text_of any_text 200_000_000_000 group_route (some takes ∷ []) idle two_rows)
sweep-IsBounded_example =
    sweep-IsBounded text_of any_text 200_000_000_000 group_route (some takes ∷ []) idle two_rows

-- One submission is made.
one_post :
    length (process text_of any_text 200_000_000_000 takes waiting_row idle two_rows).posts ≡ 1
unfolding process offer verify_route request submit notification_can_submit set_notification_payload
    on_id set_telegram_capture
one_post = refl
