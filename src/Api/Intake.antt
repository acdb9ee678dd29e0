-- ===== src/Api/Intake.antt =====
-- internal/api/api.go: the requests that make builds (a manual trigger, a rerun, GitHub's webhook) over the
-- store and the channel of builds to run here. A build is made and handed over in one step; before each
-- read of a project and before each build of a webhook, `between` does whatever others do meanwhile. JSON,
-- HMAC-SHA256 with its hex text, and a build's message are outside.
pub mod Queued
pub mod Signed
pub mod Stranded
mod Tests
use build_system.Prelude.{
  ℕ, suc, ◌+◌, String, Bool, true, false, not, ◌&&◌, ◌||◌, List, [], ◌∷◌, ◌++◌, Option, none, some,
  length, ltb, ◌==◌, if◌then◌else◌,
}
use build_system.Prelude.Text.{str_eq, codes, same_bytes}
use build_system.Models.Status.{pending}
use build_system.Models.Agent.{remote}
use build_system.Models.Project.{Project}
use build_system.Db.Builds.{Build, fail_pending_build}
use build_system.Db.Queue.{Db, at_row, find_project, find_build, create_build, last_id}
use build_system.Poller.{short, queue_full}

-- `Server`: the store, and the channel with its capacity.
pub record Desk : Type 0 where
  pub db : Db
  pub build_ch : List ℕ
  pub capacity : ℕ

abbrev pub with_rows : List Build → Desk → Desk
with_rows bs s = record s { db = record (s.db) { builds = bs } }

-- A non-blocking send; `note` fails the pending row where the channel is full.
unfoldable pub offer : ℕ → List ℕ → ℕ → Desk → Desk × Bool
offer now note id s =
    if ltb (length s.build_ch) s.capacity
    then (record s { build_ch = s.build_ch ++ id ∷ [] }, true)
    else (with_rows (at_row id (fail_pending_build now note) s.db.builds) s, false)

-- `enqueue`.
abbrev pub enqueue : ℕ → ℕ → Desk → Desk × Bool
enqueue now id s = offer now queue_full id s

-- `dispatch`.
unfoldable pub dispatch : ℕ → Project → ℕ → Desk → Desk × Bool
dispatch now p id s = if remote p.executor then (s, true) else enqueue now id s

-- CreateBuild, then `dispatch`, with the new build's id.
unfoldable pub make_build : ℕ → Project → String → Desk → Desk × Bool
make_build now p sha s =
    dispatch now p (suc (last_id s.db.builds))
      (with_rows (create_build now p.id pending sha s.db.builds) s)

pub data IntakeReply : Type 0 where
  not_found refused_full no_permission ignored unreadable : IntakeReply
  accepted : ℕ → IntakeReply
  queued : List ℕ → IntakeReply

abbrev pub answered : ℕ → Desk × Bool → Desk × IntakeReply
answered id (s, true) = (s, accepted id)
answered id (s, false) = (s, refused_full)

abbrev pub made : ℕ → Option Project → String → Desk → Desk × IntakeReply
made now none sha s = (s, not_found)
made now (some p) sha s = answered (suc (last_id s.db.builds)) (make_build now p sha s)

-- `handleTriggerBuild` of an operator.
unfoldable pub handle_trigger_build : ℕ → ℕ → Desk → Desk × IntakeReply
handle_trigger_build now id s = made now (find_project id s.db.projects) "manual" s

abbrev pub rerun_of : ℕ → Option Build → Desk → Desk × IntakeReply
rerun_of now none s = (s, not_found)
rerun_of now (some b) s = made now (find_project b.project s.db.projects) b.commit_sha s

-- `handleRerunBuild` of an operator.
unfoldable pub handle_rerun_build : ℕ → ℕ → Desk → Desk × IntakeReply
handle_rerun_build now id s = rerun_of now (find_build id s.db.builds) s

-- `strings.TrimPrefix` and `strings.TrimSuffix`.
abbrev pub cut_prefix : List ℕ → List ℕ → Option (List ℕ)
cut_prefix [] text = some text
cut_prefix (p ∷ ps) [] = none
cut_prefix (p ∷ ps) (c ∷ cs) = if p == c then cut_prefix ps cs else none

abbrev pub or_text : Option (List ℕ) → List ℕ → List ℕ
or_text none text = text
or_text (some rest) text = rest

abbrev pub trim_prefix : List ℕ → List ℕ → List ℕ
trim_prefix p text = or_text (cut_prefix p text) text

abbrev pub trim_suffix : List ℕ → List ℕ → List ℕ
trim_suffix s [] = []
trim_suffix s (c ∷ cs) = if same_bytes (c ∷ cs) s then [] else c ∷ trim_suffix s cs

-- `repoURLMatch`.
abbrev pub normal_url : String → List ℕ
normal_url s =
    trim_suffix (codes ".git")
      (trim_prefix (codes "http://") (trim_prefix (codes "https://") (codes s)))

unfoldable pub repo_url_match : String → String → Bool
repo_url_match configured webhook = same_bytes (normal_url configured) (normal_url webhook)

-- The parts of a push event that the handler reads; the id of its head commit, if it has one.
pub record Payload : Type 0 where
  pub ref : String
  pub clone_url : String
  pub head_commit : Option String

pub record Hook : Type 0 where
  pub event : String
  pub body : List ℕ
  pub signature : List ℕ

-- `validSignature`, with the hex text of the keyed digest.
unfoldable pub valid_signature : (List ℕ → List ℕ → List ℕ) → String → List ℕ → List ℕ → Bool
valid_signature digest secret body header =
    same_bytes (codes "sha256=" ++ digest (codes secret) body) header

-- The test of a listed project.
unfoldable pub is_pushed : Payload → Project → Bool
is_pushed event p =
    same_bytes (codes p.branch) (trim_prefix (codes "refs/heads/") (codes event.ref))
    && repo_url_match p.repo_url event.clone_url

-- The test of its full row.
unfoldable pub is_trusted : (List ℕ → List ℕ → List ℕ) → Hook → Project → Bool
is_trusted digest hook p =
    str_eq p.webhook_secret "" || valid_signature digest p.webhook_secret hook.body hook.signature

-- The projects that match, as read, and how many were rejected for their signature.
pub record Matches : Type 0 where
  pub matched : List Project
  pub rejected : ℕ
  pub desk : Desk

module _ (digest : List ℕ → List ℕ → List ℕ) (parse : List ℕ → Option Payload)
    (between : ℕ → Desk → Desk) where
  abbrev pub read_full : Hook → Option Project → Matches → Matches
  read_full hook none m = m
  read_full hook (some p) m =
      if is_trusted digest hook p
      then record m { matched = p ∷ m.matched }
      else record m { rejected = m.rejected + 1 }

  -- The loop over the projects.
  unfoldable pub match_projects : Hook → Payload → List Project → Desk → Matches
  match_projects hook event [] s = record { matched = []; rejected = 0; desk = s }
  match_projects hook event (p ∷ ps) s =
      let s' = between p.id s in
      let read = match_projects hook event ps s' in
      let passed = match_projects hook event ps s in
      if is_pushed event p then read_full hook (find_project p.id s'.db.projects) read else passed

  abbrev pub with_id : ℕ → Bool → List ℕ → List ℕ
  with_id id true ids = id ∷ ids
  with_id id false ids = ids

  -- The loop over the projects that match, with the ids of the builds handed over.
  unfoldable pub make_builds : ℕ → String → List Project → Desk → Desk × List ℕ
  make_builds now sha [] s = (s, [])
  make_builds now sha (p ∷ ps) s =
      let s' = between p.id s in
      let (made, ok) = make_build now p sha s' in
      let (last, ids) = make_builds now sha ps made in
      (last, with_id (suc (last_id s'.db.builds)) ok ids)

  abbrev pub reply_matched : ℕ → String → List Project → ℕ → Desk → Desk × IntakeReply
  reply_matched now sha [] rejected s = (s, if ltb 0 rejected then no_permission else ignored)
  reply_matched now sha (p ∷ ps) rejected s =
      let (last, ids) = make_builds now (short sha) (p ∷ ps) s in (last, queued ids)

  abbrev pub reply_pushed : ℕ → String → Matches → Desk × IntakeReply
  reply_pushed now sha m = reply_matched now sha m.matched m.rejected m.desk

  abbrev pub pushed : ℕ → Hook → Payload → Option String → Desk → Desk × IntakeReply
  pushed now hook event none s = (s, ignored)
  pushed now hook event (some sha) s =
      if str_eq sha ""
      then (s, ignored)
      else reply_pushed now sha (match_projects hook event s.db.projects s)

  abbrev pub parsed : ℕ → Hook → Option Payload → Desk → Desk × IntakeReply
  parsed now hook none s = (s, unreadable)
  parsed now hook (some event) s = pushed now hook event event.head_commit s

  -- `handleGitHubWebhook`.
  unfoldable pub handle_github_webhook : ℕ → Hook → Desk → Desk × IntakeReply
  handle_github_webhook now hook s =
      if str_eq hook.event "push" then parsed now hook (parse hook.body) s else (s, ignored)
