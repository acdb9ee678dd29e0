-- ===== src/Api/Claim/Tests.antt =====
-- An agent waits a round out, since it is paused, and is handed a build in the next one.
use build_system.Prelude.{
  ℕ, ◌≡◌, ◌≢◌, refl, inl, inr, Bool, ◌&&◌, ◌==◌, false, true, [], ◌∷◌, none, some, arith,
}
use build_system.Agents.Registry.{new_registry, should_persist, poll_started, note_clock}
use build_system.Models.Texts.{utf8_bytes}
use build_system.Db.Queue.{
  claim_build_for_agent, claim_candidate, claimable, oldest, find_project, find_build, at_row,
}
use build_system.Db.Builds.{claim_for_agent}
use build_system.Db.BuildLog.{build_log_len}
use build_system.Models.Project.{profile_for}
use build_system.Logbus.{new_bus}
use build_system.Db.Samples.{two_builds}
use build_system.Db.AgentStore.Columns.{SelfReport, blank_row}
use build_system.Db.AgentStore.Table.{
  agent_paused_until, get_agent_row, record_agent_sighting, on_row, run_statement,
}
use build_system.Api.Claim.{
  ClaimReply, handed, check_claim, claim_open, poll_rounds, poll_round, remember_agent,
  prepare_claim_project, Server, ClaimRequest, Round, still_polling, handle_agent_claim,
}
use build_system.Api.Claim.Handed.{IsRight, handle_agent_claim-IsRight}
use build_system.Api.Claim.Waits.{claim-IsAnswered}

abbrev nothing_new : SelfReport
nothing_new = record {
  version = [];
  os_arch = [];
  started_at = none;
  disk_free_gb = none;
  disk_floor_gb = none;
}

abbrev asks : ClaimRequest
asks = record {
  agent = "a";
  executors = "mac" ∷ [];
  scheme = "https";
  clock = none;
  self = nothing_new;
}

abbrev server : Server
server = record {
  db = two_builds;
  agents = record (blank_row "a") { paused_until = some 50 } ∷ [];
  registry = new_registry 1;
  bus = new_bus;
}

abbrev round_at : ℕ → Round
round_at now = record {
  now = now;
  unreadable = false;
  gone = false;
  before = λ s. s;
  checked = λ s. s;
  claimed = λ s. s;
  read = λ s. s;
}

handle_agent_claim-IsRight_example :
    IsRight "a"
      ("mac" ∷ [])
      (round_at 40 ∷ round_at 60 ∷ [])
      (handle_agent_claim 20 100 61 [] (round_at 40 ∷ round_at 60 ∷ []) asks server)
handle_agent_claim-IsRight_example =
    handle_agent_claim-IsRight 20 100 61 [] (round_at 40 ∷ round_at 60 ∷ []) asks server

claim-IsAnswered_example :
    (handle_agent_claim 20 10 61 [] (round_at 30 ∷ round_at 31 ∷ []) asks server).1 ≢ still_polling
claim-IsAnswered_example =
    claim-IsAnswered 20 10 61 [] (round_at 30 ∷ round_at 31 ∷ []) asks server
      (inr (inr (inl (omega arith))))

abbrev is_handed : ClaimReply → Bool
is_handed (handed b p offset) = b.id == 4 && offset == 7
is_handed _ = false

-- The older of the two builds, with the length of its log.
second_round :
    is_handed (handle_agent_claim 20 100 61 [] (round_at 40 ∷ round_at 60 ∷ []) asks server).1
    ≡ true
unfolding handle_agent_claim check_claim claim_open poll_rounds poll_round remember_agent
    prepare_claim_project claim_build_for_agent claim_candidate claimable oldest find_project
    find_build at_row claim_for_agent agent_paused_until get_agent_row record_agent_sighting
    should_persist poll_started on_row run_statement build_log_len profile_for utf8_bytes note_clock
second_round = refl
