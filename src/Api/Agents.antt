-- ===== src/Api/Agents.antt =====
-- internal/api/agents.go: the requests that an agent makes for a build that it has claimed, as steps on
-- the build's row and the log bus. A handler makes several statements, and other requests may run
-- between two of them: `between` and `later` are the operations on the row that do. The row is the one
-- that GetBuildSummary finds; decoding the request, and the driver's failures, are not modelled.
pub mod Extends
pub mod Upload
pub mod Acknowledge
pub mod Finish
mod Tests
use build_system.Prelude.{
  ℕ, ◌+◌, ◌-◌, min, String, Bool, true, false, not, ◌&&◌, ◌||◌, List, [], ◌∷◌, ◌++◌, Option, none,
  some, length, take, drop, ltb, leb, ◌==◌, if◌then◌else◌,
}
use build_system.Prelude.Int.{ℤ, pos, negsuc}
use build_system.Prelude.Text.{str_eq, same_bytes}
use build_system.Models.Status.{BuildStatus, running, same_status, terminal}
use build_system.Logbus.{Bus, topic_length, seed_at, publish_at, publish_status}
use build_system.Logbus.Topic.{max_retained}
use build_system.Db.BuildLog.{BuildLog, state_of, build_log_len, build_log_slice}
use build_system.Db.Builds.{
  Build, Change, skip, rollback, write, is, heartbeat_build, append_agent_build_log,
  finish_agent_build,
}
use build_system.Db.Builds.Lifecycle.{Op}
use build_system.Db.Builds.Runs.{run_ops}

-- The answers, by status code and message.
pub data Reply : Type 0 where
  bad_offset bad_status no_agent not_running foreign failed : Reply
  ahead differs changed lost : ℕ → Reply
  stored : ℕ → Bool → Reply
  alive : Bool → Reply
  gone : BuildStatus → Reply
  decided already : BuildStatus → Reply

-- The row, the bus and the answer after a request.
pub record Outcome : Type 0 where
  pub reply : Reply
  pub build : Build
  pub bus : Bus

abbrev pub answer : Reply → Build → Bus → Outcome
answer r b bus = record { reply = r; build = b; bus = bus }

-- `agentOwns`: none where the agent has the build.
unfoldable pub agent_owns : String → Build → Option Reply
agent_owns agent b =
    if str_eq agent ""
    then some no_agent
    else if not (is running b)
    then some not_running
    else if str_eq b.agent agent
    then none
    else some foreign

abbrev pub is_behind : Option ℕ → ℕ → Bool
is_behind none n = true
is_behind (some cur) n = ltb cur n

-- `seedBus`, with the log that BuildLogSlice reads.
unfoldable pub seed_bus : ℕ → BuildLog → ℕ → Bus → Bus
seed_bus id l stored_len bus =
    let from = stored_len - max_retained in
    if stored_len == 0 || not (is_behind (topic_length bus id) stored_len)
    then bus
    else (seed_at bus id (pos from) (build_log_slice l from (stored_len - from))).0

-- The heartbeat that ends an upload.
abbrev pub beaten : ℕ → Build → Bus → Change → Outcome
beaten total b bus skip = answer (lost total) b bus
beaten total b bus rollback = answer failed b bus
beaten total b bus (write b') = answer (stored total b'.cancel_requested) b' bus

abbrev pub beat : ℕ → String → ℕ → Build → Bus → Outcome
beat now agent total b bus = beaten total b bus (heartbeat_build now agent b)

-- What follows the append of the tail at `start`.
abbrev pub appended : ℕ → List Op → String → ℕ → List ℕ → Build → Bus → Change → Outcome
appended now later agent start tail b bus skip = answer (changed (state_of b.log).total_bytes) b bus
appended now later agent start tail b bus rollback = answer failed b bus
appended now later agent start tail b bus (write b') =
    beat now agent (start + length tail) (run_ops later b') (publish_at bus b.id (pos start) tail)

unfoldable pub append_tail : ℕ → List Op → String → ℕ → List ℕ → Build → Bus → Outcome
append_tail now later agent total tail b bus =
    appended now later agent total tail b bus (append_agent_build_log now agent total tail b)

abbrev pub is_empty : List ℕ → Bool
is_empty [] = true
is_empty (b ∷ bs) = false

-- The bytes of an upload behind the stored length.
unfoldable pub new_tail : ℕ → ℕ → List ℕ → List ℕ
new_tail total at bytes = if ltb total (at + length bytes) then drop (total - at) bytes else []

-- `handleAgentLog` on the row of an agent that has the build, at an offset that is not negative, with
-- the length of BuildLogLen.
unfoldable pub upload_from : ℕ → List Op → List Op → String → ℕ → List ℕ → ℕ → Build → Bus → Outcome
upload_from now between later agent at bytes total b bus =
    let overlap = min (total - at) (length bytes) in
    let tail = new_tail total at bytes in
    if ltb total at
    then answer (ahead total) b bus
    else if ltb 0 overlap
        && not (same_bytes (build_log_slice b.log at overlap) (take overlap bytes))
    then answer (differs total) b bus
    else if is_empty tail
    then beat now agent total (run_ops later b) bus
    else append_tail now later agent total tail (run_ops between b) (seed_bus b.id b.log total bus)

abbrev pub unless : Option Reply → Build → Bus → Outcome → Outcome
unless none b bus o = o
unless (some r) b bus o = answer r b bus

-- `handleAgentLog`.
unfoldable pub handle_agent_log :
    ℕ → List Op → List Op → String → ℤ → List ℕ → Build → Bus → Outcome
handle_agent_log now between later agent (negsuc n) bytes b bus = answer bad_offset b bus
handle_agent_log now between later agent (pos at) bytes b bus =
    unless (agent_owns agent b) b bus
      (upload_from now between later agent at bytes (build_log_len b.log) b bus)

abbrev pub heard : Build → Bus → Change → Outcome
heard b bus skip = answer (gone b.status) b bus
heard b bus rollback = answer failed b bus
heard b bus (write b') = answer (alive b'.cancel_requested) b' bus

-- `handleAgentHeartbeat`.
unfoldable pub handle_agent_heartbeat : ℕ → String → Build → Bus → Outcome
handle_agent_heartbeat now agent b bus = heard b bus (heartbeat_build now agent b)

-- The answer of a finish that did not win, from the row as it is then.
unfoldable pub not_won : Build → Bus → Outcome
not_won b bus =
    if terminal b.status then answer (already b.status) b bus else answer (gone b.status) b bus

abbrev pub finished : ℕ → List Op → BuildStatus → Option ℕ → Build → Bus → Change → Outcome
finished now later s started b bus skip = not_won (run_ops later b) bus
finished now later s started b bus rollback = answer failed b bus
finished now later s started b bus (write b') =
    answer (decided s) b' (publish_status bus b.id s started (some now))

-- `handleAgentFinish`; the start time that it publishes is that of its first read.
unfoldable pub handle_agent_finish :
    ℕ → List Op → List Op → String → BuildStatus → Build → Bus → Outcome
handle_agent_finish now between later agent s b bus =
    let b' = run_ops between b in
    if not (terminal s)
    then answer bad_status b bus
    else if terminal b.status
    then answer (already b.status) b bus
    else unless (agent_owns agent b) b bus
        (finished now later s b.started_at b' bus (finish_agent_build now agent s b'))
