-- ===== src/Db/Builds.antt =====
-- internal/db/db.go and buildlogs.go: the rows of the table `builds`, and what each statement or
-- transaction on one row does. A statement with a WHERE clause that fails skips the row; a transaction
-- whose log append fails rolls back; otherwise the row is written.
pub mod Lifecycle
pub mod Runs
pub mod Extends
use build_system.Prelude.{
  ℕ, suc, ◌+◌, String, Bool, true, false, not, ◌&&◌, ◌||◌, List, [], ◌∷◌, ◌++◌, Option, none, some,
  ltb, leb, ◌==◌, if◌then◌else◌,
}
use build_system.Prelude.Text.{str_eq, codes}
use build_system.Models.Status.{
  BuildStatus, pending, running, success, failed, canceled, same_status,
}
use build_system.Models.Agent.{agent_stale}
use build_system.Db.BuildLog.{BuildLog, new_log, state_of, append_build_log}

pub record Build : Type 0 where
  pub id : ℕ
  pub number : ℕ
  pub project : ℕ
  pub status : BuildStatus
  pub commit_sha : String
  pub requeues : ℕ
  pub started_at : Option ℕ
  pub finished_at : Option ℕ
  pub created_at : ℕ
  pub agent : String
  pub last_heartbeat_at : Option ℕ
  pub cancel_requested : Bool
  pub log : BuildLog

-- `MaxBuildRequeues`.
abbrev pub max_build_requeues : ℕ
max_build_requeues = 2

-- `RestartNote`, `AgentLostNote` (with its dash in UTF-8), `RequeueNote`, and the note of a cancel.
abbrev pub restart_note : List ℕ
restart_note = 10 ∷ codes "[ERROR] Build interrupted by server restart" ++ 10 ∷ []

abbrev pub agent_lost_note : List ℕ
agent_lost_note =
    10 ∷ codes "[ERROR] Build agent stopped responding "
    ++ 226 ∷ 128 ∷ 148 ∷ codes " no heartbeat received"
    ++ 10 ∷ []

abbrev pub requeue_note : List ℕ
requeue_note =
    10 ∷ codes "[restart] Build interrupted by a server restart "
    ++ 226 ∷ 128 ∷ 148 ∷ codes " re-queued"
    ++ 10 ∷ []

abbrev pub canceled_note : List ℕ
canceled_note = codes "[canceled while queued]" ++ 10 ∷ []

pub data Change : Type 0 where
  skip rollback : Change
  write : Build → Change

abbrev pub is : BuildStatus → Build → Bool
is s b = same_status b.status s

abbrev pub is_local : Build → Bool
is_local b = str_eq b.agent ""

-- `ClaimBuild`.
unfoldable pub claim_build : ℕ → Build → Change
claim_build now b =
    if is pending b then write (record b { status = running; started_at = some now }) else skip

-- The UPDATE of `ClaimBuildForAgent` on its candidate.
unfoldable pub claim_for_agent : ℕ → String → Build → Change
claim_for_agent now agent b =
    if is pending b
    then write (record b {
      status = running;
      started_at = some now;
      agent = agent;
      last_heartbeat_at = some now;
      cancel_requested = false;
    })
    else skip

-- `HeartbeatBuild`; the flag that it returns is the row's `cancel_requested`.
unfoldable pub heartbeat_build : ℕ → String → Build → Change
heartbeat_build now agent b =
    if not (str_eq agent "") && is running b && str_eq b.agent agent
    then write (record b { last_heartbeat_at = some now })
    else skip

-- `RequestAgentCancel`.
unfoldable pub request_agent_cancel : Build → Change
request_agent_cancel b =
    if is running b && not (is_local b) then write (record b { cancel_requested = true }) else skip

-- The log append that ends a transaction.
unfoldable pub logged : Option (BuildLog × ℕ) → Build → Change
logged none b = rollback
logged (some (l, start)) b = write (record b { log = l })

unfoldable pub with_note : List ℕ → Build → Change
unfolding logged
with_note note b = logged (append_build_log b.log note) b

-- `CancelPendingBuild`.
unfoldable pub cancel_pending_build : ℕ → Build → Change
cancel_pending_build now b =
    if is pending b
    then with_note canceled_note (record b { status = canceled; finished_at = some now })
    else skip

-- `FinishBuild`: no condition but the id.
unfoldable pub finish_build : ℕ → BuildStatus → Build → Change
finish_build now s b = write (record b { status = s; finished_at = some now })

-- `FinishAgentBuild`.
unfoldable pub finish_agent_build : ℕ → String → BuildStatus → Build → Change
finish_agent_build now agent s b =
    if is running b && str_eq b.agent agent
    then write (record b { status = s; finished_at = some now })
    else skip

-- `FailPendingBuildWithNote`.
unfoldable pub fail_pending_build : ℕ → List ℕ → Build → Change
fail_pending_build now note b =
    if is pending b
    then with_note note (record b { status = failed; finished_at = some now })
    else skip

abbrev pub requeued : Build → Build
requeued b = record b {
  status = pending;
  requeues = b.requeues + 1;
  started_at = none;
  finished_at = none;
}

-- `RequeueBuild`.
pub requeue_build : ℕ → Build → Change
requeue_build limit b = if is running b && ltb b.requeues limit then write (requeued b) else skip

-- `RequeueBuildWithNote`, and one round of `RequeueStaleRunning`.
unfoldable pub requeue_build_with_note : ℕ → Build → Change
requeue_build_with_note limit b =
    if is running b && ltb b.requeues limit && is_local b
    then with_note requeue_note (requeued b)
    else skip

-- `AppendAgentBuildLog`; a conflict skips the row.
unfoldable pub append_agent_build_log : ℕ → String → ℕ → List ℕ → Build → Change
append_agent_build_log now agent expected bytes b =
    if is running b && str_eq b.agent agent && (state_of b.log).total_bytes == expected
    then with_note bytes (record b { last_heartbeat_at = some now })
    else skip

-- Whether `FailStaleRunning` gives up on a running row, and what it writes into its log.
unfoldable pub gives_up : ℕ → ℕ → Build → Bool
gives_up floor now b = is_local b || agent_stale b.last_heartbeat_at floor now

abbrev pub stale_note : Build → List ℕ
stale_note b = if is_local b then restart_note else agent_lost_note

-- The transaction of `FailStaleRunning` on one row that its scan found stale, with the note of the scan.
unfoldable pub fail_stale : ℕ → ℕ → List ℕ → Build → Change
fail_stale floor now note b =
    if is running b && gives_up floor now b
    then with_note note (record b { status = failed })
    else skip

-- The UPDATE of one row that `UpdateBuildStatus` makes: the log is replaced.
pub update_build_status : ℕ → BuildStatus → List ℕ → Build → Change
update_build_status now s bytes b = with_note bytes (record b {
  status = s;
  started_at = if same_status s running then some now else b.started_at;
  finished_at =
      if same_status s success || same_status s failed || same_status s canceled
      then some now
      else none;
  log = record { legacy = []; state = none; chunks = [] };
})
