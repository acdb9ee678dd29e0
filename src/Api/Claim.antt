-- ===== src/Api/Claim.antt =====
-- internal/api/agents.go and profiles.go: an agent's request for work, which is held open and asks the
-- store once per tick. `before`, `checked`, `claimed` and `read` are what the rest of the server does
-- between the statements of one round. Both s.DB and s.Agents are there. Decoding and CSRF are not
-- modelled.
pub mod Handed
pub mod Waits
mod Tests
use build_system.Prelude.{
  ℕ, ◌+◌, String, Bool, true, false, not, ◌&&◌, ◌||◌, List, [], ◌∷◌, Option, none, some, length,
  ltb, ◌==◌, if◌then◌else◌,
}
use build_system.Prelude.Text.{str_eq}
use build_system.Models.Status.{running, failed}
use build_system.Models.Agent.{remote, agent_paused}
use build_system.Models.Project.{Profile, Project, profile_for}
use build_system.Models.Texts.{pieces, valid_agent_name}
use build_system.Logbus.{Bus, publish_status}
use build_system.Agents.Registry.{Registry, poll_started, poll_ended, should_persist, note_clock}
use build_system.Db.BuildLog.{build_log_len}
use build_system.Db.Builds.{Build, finish_build}
use build_system.Db.Queue.{Db, at_row, find_build, find_project, claim_build_for_agent}
use build_system.Db.AgentStore.Columns.{AgentRow, SelfReport}
use build_system.Db.AgentStore.Table.{Statement, record_agent_sighting, agent_paused_until}

pub record Server : Type 0 where
  pub db : Db
  pub agents : List AgentRow
  pub registry : Registry
  pub bus : Bus

pub record ClaimRequest : Type 0 where
  pub agent : String
  pub executors : List String
  pub scheme : String
  pub clock : Option ℕ
  pub self : SelfReport

pub data Refusal : Type 0 where
  no_agent bad_name no_executors many_executors local_executor : Refusal

pub data ClaimReply : Type 0 where
  refused : Refusal → ClaimReply
  handed : Build → Project → ℕ → ClaimReply
  no_content hung_up still_polling conflict server_error : ClaimReply

abbrev pub Answer : Type 0
Answer = Server × ClaimReply

-- One round of the loop: its instant, whether the pause cannot be read, whether the agent hangs up in
-- the wait after it, and the rest of the server.
pub record Round : Type 0 where
  pub now : ℕ
  pub unreadable : Bool
  pub gone : Bool
  pub before : Server → Server
  pub checked : Server → Server
  pub claimed : Server → Server
  pub read : Server → Server

-- `agentIsPaused`.
abbrev pub agent_is_paused : Bool → ℕ → String → List AgentRow → Bool
agent_is_paused unreadable now name t =
    if unreadable then false else agent_paused (agent_paused_until name t) now

abbrev pub with_profile : Project → Option Profile → Option Project
with_profile p none = none
with_profile p (some f) = some (record p {
  build_command = f.build_command;
  build_path = f.build_path;
  upload_script = f.upload_script;
  executor_profiles = [];
})

-- `prepareClaimProject`: the project as the agent gets it.
unfoldable pub prepare_claim_project : Project → List String → Option Project
prepare_claim_project p executors =
    if not (remote p.executor) then none else with_profile p (profile_for p executors)

-- `maxAgentExecutors`.
abbrev pub max_agent_executors : ℕ
max_agent_executors = 16

abbrev pub some_local : List String → Bool
some_local [] = false
some_local (e ∷ es) = not (remote e) || some_local es

-- The checks of a request.
unfoldable pub check_claim : ClaimRequest → Option Refusal
check_claim r =
    if str_eq r.agent ""
    then some no_agent
    else if not (valid_agent_name (pieces r.agent))
    then some bad_name
    else if length r.executors == 0
    then some no_executors
    else if ltb max_agent_executors (length r.executors)
    then some many_executors
    else if some_local r.executors
    then some local_executor
    else none

-- `AgentSightingInterval`: ten seconds.
abbrev pub agent_sighting_interval : ℕ
agent_sighting_interval = 10_000_000_000

-- `rememberAgent`.
unfoldable pub remember_agent : ℕ → List Statement → ClaimRequest → Server → Server
remember_agent now between r s =
    let (registry, persist) = should_persist now agent_sighting_interval r.agent s.registry in
    if persist
    then record s {
      registry = registry;
      agents = record_agent_sighting r.agent r.executors r.scheme r.self now between s.agents;
    }
    else record s { registry = registry }

-- The end of a round in which nothing was claimed.
abbrev pub waits : ℕ → Round → Server → (Server → Answer) → Answer
waits deadline r s later =
    if ltb deadline r.now then (s, no_content) else if r.gone then (s, hung_up) else later s

-- The answer with a build, once its row is read again for its log's length.
abbrev pub told : Build → Project → Server → Option Build → Answer
told b p s none = (s, server_error)
told b p s (some row) = (
  record s { bus = publish_status s.bus b.id running b.started_at none },
  handed b p (build_log_len row.log),
)

abbrev pub prepared : Round → Build → Server → Option Project → Answer
prepared r b s none = (
  record s {
    db = record s.db { builds = at_row b.id (finish_build r.now failed) s.db.builds };
    bus = publish_status s.bus b.id failed b.started_at (some r.now);
  },
  conflict,
)
prepared r b s (some p) = told b p (r.read s) (find_build b.id (r.read s).db.builds)

abbrev pub hand_over : Round → List String → Build → Server → Option Project → Answer
hand_over r executors b s none = (s, server_error)
hand_over r executors b s (some p) = prepared r b s (prepare_claim_project p executors)

-- What follows the claim.
abbrev pub taken : ℕ → Round → List String → (Server → Answer) → Server → Db × Option Build → Answer
taken deadline r executors later s (db, none) = waits deadline r (record s { db = db }) later
taken deadline r executors later s (db, some b) =
    let s' = r.claimed (record s { db = db }) in
    hand_over r executors b s' (find_project b.project s'.db.projects)

-- One round.
unfoldable pub poll_round : String → List String → ℕ → Round → (Server → Answer) → Server → Answer
poll_round agent executors deadline r later s =
    let s0 = r.before s in
    let s1 = r.checked s0 in
    if agent_is_paused r.unreadable r.now agent s0.agents
    then waits deadline r s0 later
    else taken deadline r executors later s1 (claim_build_for_agent r.now agent executors s1.db)

-- The loop, over the rounds that there are.
unfoldable pub poll_rounds : String → List String → ℕ → List Round → Server → Answer
poll_rounds agent executors deadline [] s = (s, still_polling)
poll_rounds agent executors deadline (r ∷ rs) s =
    poll_round agent executors deadline r (poll_rounds agent executors deadline rs) s

abbrev pub closed : ℕ → ℕ → Answer → Answer
closed ended k (s, reply) = (record s { registry = poll_ended ended k s.registry }, reply)

-- The handler behind its checks; the poll is closed however it returns.
unfoldable pub claim_open : ℕ → ℕ → ℕ → List Statement → List Round → ClaimRequest → Server → Answer
claim_open now hold ended between rounds r s =
    let k = s.registry.next_poll in
    let started = poll_started now r.agent r.executors r.scheme s.registry in
    let s1 = record s { registry = note_clock now r.agent r.clock started } in
    closed ended k
      (poll_rounds r.agent r.executors (now + hold) rounds (remember_agent now between r s1))

abbrev pub unless_refused : Option Refusal → Server → Answer → Answer
unless_refused none s a = a
unless_refused (some e) s a = (s, refused e)

-- `handleAgentClaim`.
unfoldable pub handle_agent_claim :
    ℕ → ℕ → ℕ → List Statement → List Round → ClaimRequest → Server → Answer
handle_agent_claim now hold ended between rounds r s =
    unless_refused (check_claim r) s (claim_open now hold ended between rounds r s)
