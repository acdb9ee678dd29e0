-- ===== src/Poller.antt =====
-- internal/poller/poller.go: probing the projects' branches and queueing builds of new commits. The
-- result of a probe (git ls-remote), the clock, the statements that fail, and what the rest of the server
-- does before each statement are inputs; the time and the message of the last poll are not kept, since
-- nothing here reads them.
pub mod Baseline
pub mod Once
mod Tests
use build_system.Prelude.{
  ℕ, zero, suc, ◌+◌, ◌*◌, String, Bool, true, false, not, ◌&&◌, ◌||◌, List, [], ◌∷◌, ◌++◌, map,
  Option, none, some, length, keep, ltb, leb, ◌==◌, if◌then◌else◌,
}
use build_system.Prelude.Text.{str_eq, codes}
use build_system.Models.Status.{pending, running}
use build_system.Models.Agent.{remote}
use build_system.Models.Project.{Project, poll_interval}
use build_system.Db.Builds.{Build, is, fail_pending_build}
use build_system.Db.Queue.{Db, at_row, find_project, created, create_build, last_id}

-- The store, the channel of builds to run here with its capacity, and the next poll time of a project.
pub record Poller : Type 0 where
  pub db : Db
  pub build_ch : List ℕ
  pub capacity : ℕ
  pub due : List (ℕ × ℕ)

-- What `LsRemote` returns.
pub data Probe : Type 0 where
  unreachable : Probe
  tip : String → Probe

abbrev text_take : ℕ → String → String
text_take zero s = ""
text_take (suc n) String.[] = ""
text_take (suc n) (String.◌∷◌ c s) = String.◌∷◌ c (text_take n s)

-- `short`.
abbrev pub short : String → String
short sha = text_take 12 sha

abbrev pub observe : ℕ → String → Project → Project
observe id sha p = if p.id == id then record p { last_polled_sha = sha } else p

-- `UpdatePollState` of a successful poll. A failed one keeps the last known tip.
unfoldable pub update_poll_state : ℕ → String → Db → Db
update_poll_state id sha db = record db { projects = map (observe id sha) db.projects }

abbrev pub builds_commit : ℕ → String → Build → Bool
builds_commit project sha b = b.project == project && str_eq b.commit_sha sha

abbrev pub some_build : (Build → Bool) → List Build → Bool
some_build p [] = false
some_build p (b ∷ bs) = p b || some_build p bs

-- `HasBuildForCommit`.
abbrev pub has_build_for_commit : ℕ → String → List Build → Bool
has_build_for_commit project sha bs =
    if str_eq sha "" then false else some_build (builds_commit project sha) bs

-- `HasActiveBuild`.
abbrev pub has_active_build : ℕ → List Build → Bool
has_active_build project bs =
    some_build (λ b. b.project == project && (is pending b || is running b)) bs

abbrev pub queue_full : List ℕ
queue_full = codes "Build not started: queue is full" ++ 10 ∷ []

abbrev pub touch : ℕ → String → Poller → Poller
touch id sha s = record s { db = update_poll_state id sha s.db }

abbrev pub with_builds : List Build → Poller → Poller
with_builds bs s = record s { db = record (s.db) { builds = bs } }

-- Which statements of a poll fail.
pub record Faults : Type 0 where
  pub built_fails : Bool
  pub active_fails : Bool
  pub create_fails : Bool
  pub touch_fails : Bool
  pub note_fails : Bool

-- `touch`, whose failure is only logged.
abbrev pub try_touch : Faults → ℕ → String → Poller → Poller
try_touch f id sha s = if f.touch_fails then s else touch id sha s

-- The new build's way to the local runner, to an agent, or to failure where the channel is full.
unfoldable pub hand_over : ℕ → Faults → Project → ℕ → Poller → Poller
hand_over now f p id s =
    if remote p.executor
    then s
    else if ltb (length s.build_ch) s.capacity
    then record s { build_ch = s.build_ch ++ id ∷ [] }
    else if f.note_fails
    then s
    else with_builds (at_row id (fail_pending_build now queue_full) s.db.builds) s

-- `between` is what the rest of the server does during the probe, and before each later statement.
module _ (between : ℕ → Poller → Poller) where
  unfoldable pub queue_build : ℕ → Faults → Project → String → Poller → Poller
  queue_build now f p sha s =
      let id = suc (last_id s.db.builds) in
      let made = between 3 (with_builds (create_build now p.id pending sha s.db.builds) s) in
      hand_over now f p id (between 4 (try_touch f p.id sha made))

  abbrev pub when_idle : ℕ → Faults → Project → String → Poller → Poller
  when_idle now f p sha s =
      if not f.active_fails && has_active_build p.id s.db.builds
      then try_touch f p.id p.last_polled_sha (between 2 s)
      else if f.create_fails
      then between 2 s
      else queue_build now f p sha (between 2 s)

  -- `pollProject` after the probe.
  unfoldable pub poll_tip : ℕ → Faults → Project → String → Poller → Poller
  poll_tip now f p sha s =
      let prev = p.last_polled_sha in
      if str_eq prev "" || str_eq prev sha
      then try_touch f p.id sha s
      else if not f.built_fails && has_build_for_commit p.id sha s.db.builds
      then try_touch f p.id sha (between 1 s)
      else when_idle now f p sha (between 1 s)

  abbrev pub poll_found : ℕ → Faults → Option Project → Probe → Poller → Poller
  poll_found now f none probe s = s
  poll_found now f (some p) unreachable s = between 0 s
  poll_found now f (some p) (tip sha) s = poll_tip now f p (short sha) (between 0 s)

  -- `pollProject`.
  unfoldable pub poll_project : ℕ → Faults → ℕ → Probe → Poller → Poller
  poll_project now f id probe s = poll_found now f (find_project id s.db.projects) probe s

-- The map `due`, with at most one entry per project.
pub next_poll : ℕ → List (ℕ × ℕ) → Option ℕ
next_poll id [] = none
next_poll id ((k, at) ∷ rest) = if k == id then some at else next_poll id rest

abbrev pub is_due : ℕ → Option ℕ → Bool
is_due now none = true
is_due now (some at) = leb at now

abbrev pub second : ℕ
second = 1000000000

-- The loop of `Sweep`; a stopped poller marks the project and returns, which the flag says.
pub sweep_each :
    (ℕ → Poller → Poller)
    → ℕ
    → Bool
    → (ℕ → Faults)
    → (ℕ → Probe)
    → List Project
    → Poller
    → Poller × Bool
sweep_each between now stopped faults probes [] s = (s, true)
sweep_each between now stopped faults probes (p ∷ ps) s =
    let marked = record s {
      due = (p.id, now + poll_interval p * second) ∷ keep (λ (e : ℕ × ℕ). not (e.0 == p.id)) s.due;
    } in
    let skip = sweep_each between now stopped faults probes ps s in
    let polled =
      sweep_each between now stopped faults probes ps
        (poll_project between now (faults p.id) p.id (probes p.id) marked) in
    if not p.poll_enabled || not (is_due now (next_poll p.id s.due))
    then skip
    else if stopped
    then (marked, false)
    else polled

abbrev pub is_live : List Project → ℕ → Bool
is_live [] id = false
is_live (p ∷ ps) id = p.id == id || is_live ps id

-- `Sweep`.
pub sweep : (ℕ → Poller → Poller) → ℕ → Bool → (ℕ → Faults) → (ℕ → Probe) → Poller → Poller
sweep between now stopped faults probes s =
    let (s', whole) = sweep_each between now stopped faults probes s.db.projects s in
    if whole then record s' { due = keep (λ (e : ℕ × ℕ). is_live s.db.projects e.0) s'.due } else s'
