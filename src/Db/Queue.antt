-- ===== src/Db/Queue.antt =====
-- internal/db/db.go: the statements over the whole table `builds` and its join with `projects`: creating,
-- claiming, sweeping and counting builds. A statement runs alone (the store has one connection). The
-- rows stand in the order of their ids.
pub mod Rows
pub mod Claims
pub mod Sweep
use build_system.Prelude.{
  ℕ, suc, ◌+◌, max, String, Bool, true, false, not, ◌&&◌, ◌||◌, List, [], ◌∷◌, ◌++◌, map, Option,
  none, some, length, keep, ltb, leb, ◌==◌, if◌then◌else◌,
}
use build_system.Prelude.Text.{str_eq, has_text}
use build_system.Models.Status.{BuildStatus, pending, running}
use build_system.Models.Agent.{remote, executor_local}
use build_system.Models.Project.{Project, matches_profiles, is_nonempty}
use build_system.Db.BuildLog.{new_log}
use build_system.Db.Builds.{
  Build, Change, write, is, is_local, claim_for_agent, gives_up, stale_note, fail_stale,
  requeue_build_with_note,
}
use build_system.Db.Builds.Runs.{after}

pub record Db : Type 0 where
  pub builds : List Build
  pub projects : List Project

-- `... WHERE id = ?`: the operation on the rows of that id.
unfoldable pub at_row : ℕ → (Build → Change) → List Build → List Build
at_row id op [] = []
at_row id op (b ∷ bs) = (if b.id == id then after b (op b) else b) ∷ at_row id op bs

unfoldable pub find_build : ℕ → List Build → Option Build
find_build id [] = none
find_build id (b ∷ bs) = if b.id == id then some b else find_build id bs

unfoldable pub find_project : ℕ → List Project → Option Project
find_project id [] = none
find_project id (p ∷ ps) = if p.id == id then some p else find_project id ps

-- `COALESCE(MAX(project_build_number), 0)` of one project's builds.
pub last_number : ℕ → List Build → ℕ
last_number project [] = 0
last_number project (b ∷ bs) =
    let rest = last_number project bs in if b.project == project then max b.number rest else rest

unfoldable pub last_id : List Build → ℕ
last_id [] = 0
last_id (b ∷ bs) = max b.id (last_id bs)

-- `CreateBuild`: the new row, with the next number of its project. Its id is one more than the largest;
-- the table's AUTOINCREMENT never gives the id of a row that was deleted either.
unfoldable pub created : ℕ → ℕ → BuildStatus → String → List Build → Build
created now project s sha bs = record {
  id = suc (last_id bs);
  number = last_number project bs + 1;
  project = project;
  status = s;
  commit_sha = sha;
  requeues = 0;
  started_at = none;
  finished_at = none;
  created_at = now;
  agent = "";
  last_heartbeat_at = none;
  cancel_requested = false;
  log = new_log;
}

unfoldable pub create_build : ℕ → ℕ → BuildStatus → String → List Build → List Build
create_build now project s sha bs = bs ++ created now project s sha bs ∷ []

-- The WHERE clause of the claim's sub-select, for the remote executors that the agent offers.
abbrev pub joined : Option Project → List String → Bool
joined none executors = false
joined (some p) executors = remote p.executor && matches_profiles p executors

unfoldable pub claimable : Db → List String → Build → Bool
claimable db executors b = is pending b && joined (find_project b.project db.projects) executors

-- `ORDER BY created_at ASC, id ASC`.
abbrev pub older : Build → Build → Bool
older a b = ltb a.created_at b.created_at || (a.created_at == b.created_at && ltb a.id b.id)

abbrev pub older_of : Build → Option Build → Build
older_of b none = b
older_of b (some c) = if older c b then c else b

-- `LIMIT 1`.
unfoldable pub oldest : List Build → Option Build
oldest [] = none
oldest (b ∷ bs) = some (older_of b (oldest bs))

-- The claim's statement, and `GetBuild` of the id that it returns.
unfoldable pub claim_candidate : ℕ → String → Option Build → Db → Db × Option Build
claim_candidate now agent none db = (db, none)
claim_candidate now agent (some c) db =
    let builds = at_row c.id (claim_for_agent now agent) db.builds in
    (record db { builds = builds }, find_build c.id builds)

-- `ClaimBuildForAgent`.
unfoldable pub claim_build_for_agent : ℕ → String → List String → Db → Db × Option Build
claim_build_for_agent now agent executors db =
    let offered = keep remote executors in
    if str_eq agent "" || not (is_nonempty offered)
    then (db, none)
    else claim_candidate now agent (oldest (keep (claimable db offered) db.builds)) db

-- `StaleBuild`.
pub record StaleBuild : Type 0 where
  pub id : ℕ
  pub note : List ℕ

-- The scan of `FailStaleRunning`.
unfoldable pub scan_stale : ℕ → ℕ → ℕ → List Build → List StaleBuild
scan_stale except floor now [] = []
scan_stale except floor now (b ∷ bs) =
    let rest = scan_stale except floor now bs in
    if is running b && not (b.id == except) && gives_up floor now b
    then record { id = b.id; note = stale_note b } ∷ rest
    else rest

-- Its second loop, at a later instant: one transaction for each build found.
unfoldable pub fail_each : ℕ → ℕ → List StaleBuild → List Build → List Build
fail_each floor now [] bs = bs
fail_each floor now (s ∷ stale) bs =
    fail_each floor now stale (at_row s.id (fail_stale floor now s.note) bs)

-- `FailStaleRunning` with the instants of its two loops.
unfoldable pub fail_stale_running : ℕ → ℕ → ℕ → ℕ → List Build → List Build
fail_stale_running except floor now later bs =
    fail_each floor later (scan_stale except floor now bs) bs

-- `RequeueStaleRunning`.
unfoldable pub requeue_each : ℕ → List ℕ → List Build → List Build
requeue_each limit [] bs = bs
requeue_each limit (id ∷ ids) bs =
    requeue_each limit ids (at_row id (requeue_build_with_note limit) bs)

unfoldable pub requeue_stale_running : ℕ → List Build → List Build
requeue_stale_running limit bs =
    requeue_each limit
      (map (λ (b : Build). b.id)
        (keep (λ b. is running b && ltb b.requeues limit && is_local b) bs))
      bs

-- The queue that a project's builds wait in: '' and 'local' are one.
abbrev pub queue_name : String → String
queue_name executor = if remote executor then executor else executor_local

abbrev pub in_queue : List Project → String → Build → Bool
in_queue projects queue b = elim (find_project b.project projects) [
  | none ↦ false
  | some p ↦ str_eq (if str_eq p.executor "" then executor_local else p.executor) queue
]

-- `QueuePosition` of a build whose project has the executor.
pub queue_position : Db → ℕ → String → ℕ
queue_position db id executor =
    let mine = in_queue db.projects (queue_name executor) in
    1
    + length (keep (λ b. is pending b && ltb b.id id && mine b) db.builds)
    + length (keep (λ b. is running b && mine b) db.builds)
