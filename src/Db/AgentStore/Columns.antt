-- ===== src/Db/AgentStore/Columns.antt =====
-- internal/db/agentstore.go: a row of the table of agents, and what a statement does to one.
use build_system.Prelude.{ℕ, String, List, [], ◌∷◌, Option, none, some, ◌==◌, if◌then◌else◌}
use build_system.Prelude.Int.{ℤ, pos, negsuc}
use build_system.Models.Texts.{Piece, clamp_text}
use build_system.Models.Report.{AgentStatus}

-- `MaxAgentRows`.
abbrev pub max_agent_rows : ℕ
max_agent_rows = 500

abbrev pub max_agent_version_len : ℕ
max_agent_version_len = 64

abbrev pub max_os_arch_len : ℕ
max_os_arch_len = 32

-- `MaxPauseNoteLen`.
abbrev pub max_pause_note_len : ℕ
max_pause_note_len = 200

pub record AgentRow : Type 0 where
  pub name : String
  pub executors : List String
  pub first_seen_at : Option ℕ
  pub last_seen_at : Option ℕ
  pub last_scheme : String
  pub paused_until : Option ℕ
  pub pause_note : List ℕ
  pub version : List ℕ
  pub os_arch : List ℕ
  pub started_at : Option ℕ
  pub disk_free_gb : ℕ
  pub disk_floor_gb : ℕ
  pub status : Option (AgentStatus (List ℕ))
  pub last_status_at : Option ℕ

-- The columns' defaults.
abbrev pub blank_row : String → AgentRow
blank_row name = record {
  name = name;
  executors = [];
  first_seen_at = none;
  last_seen_at = none;
  last_scheme = "";
  paused_until = none;
  pause_note = [];
  version = [];
  os_arch = [];
  started_at = none;
  disk_free_gb = 0;
  disk_floor_gb = 0;
  status = none;
  last_status_at = none;
}

pub record SelfReport : Type 0 where
  pub version : List Piece
  pub os_arch : List Piece
  pub started_at : Option ℕ
  pub disk_free_gb : Option ℤ
  pub disk_floor_gb : Option ℤ

-- What a sighting binds to the placeholders of its statements.
pub record Sighted : Type 0 where
  pub executors : List String
  pub scheme : String
  pub version : List ℕ
  pub os_arch : List ℕ
  pub started : Option ℕ
  pub free : Option ℕ
  pub floor : Option ℕ
  pub now : ℕ

-- `nonNegative`.
abbrev pub nonnegative : Option ℤ → Option ℕ
nonnegative none = none
nonnegative (some (pos n)) = some n
nonnegative (some (negsuc n)) = none

-- A time that is not the zero time.
abbrev pub nonzero : Option ℕ → Option ℕ
nonzero none = none
nonzero (some t) = if t == 0 then none else some t

abbrev pub bound : List String → String → SelfReport → ℕ → Sighted
bound executors scheme self now = record {
  executors = executors;
  scheme = scheme;
  version = clamp_text self.version max_agent_version_len;
  os_arch = clamp_text self.os_arch max_os_arch_len;
  started = nonzero self.started_at;
  free = nonnegative self.disk_free_gb;
  floor = nonnegative self.disk_floor_gb;
  now = now;
}

-- `COALESCE(a, b)`, where b may be null, and where it is not.
abbrev pub coalesce : Option ℕ → Option ℕ → Option ℕ
coalesce none b = b
coalesce (some a) b = some a

abbrev pub coalesce_with : Option ℕ → ℕ → ℕ
coalesce_with none b = b
coalesce_with (some a) b = a

-- `COALESCE(NULLIF(a, ''), b)`.
abbrev pub nonempty_or : List ℕ → List ℕ → List ℕ
nonempty_or [] b = b
nonempty_or (x ∷ a) b = x ∷ a

-- The UPDATE of a sighting.
abbrev pub sighted : Sighted → AgentRow → AgentRow
sighted s a = record a {
  executors = s.executors;
  last_seen_at = some s.now;
  last_scheme = s.scheme;
  first_seen_at = coalesce a.first_seen_at (some s.now);
  version = nonempty_or s.version a.version;
  os_arch = nonempty_or s.os_arch a.os_arch;
  started_at = coalesce s.started a.started_at;
  disk_free_gb = coalesce_with s.free a.disk_free_gb;
  disk_floor_gb = coalesce_with s.floor a.disk_floor_gb;
}

-- The row that its INSERT makes.
abbrev pub inserted : String → Sighted → AgentRow
inserted name s = record (blank_row name) {
  executors = s.executors;
  first_seen_at = some s.now;
  last_seen_at = some s.now;
  last_scheme = s.scheme;
  version = s.version;
  os_arch = s.os_arch;
  started_at = s.started;
  disk_free_gb = coalesce_with s.free 0;
  disk_floor_gb = coalesce_with s.floor 0;
}

-- What that INSERT does to a row that came in the meantime: `excluded` has no null reading of a disk.
abbrev pub collided : Sighted → AgentRow → AgentRow
collided s a = record a {
  executors = s.executors;
  last_seen_at = some s.now;
  last_scheme = s.scheme;
  version = nonempty_or s.version a.version;
  os_arch = nonempty_or s.os_arch a.os_arch;
  started_at = coalesce s.started a.started_at;
  disk_free_gb = coalesce_with s.free 0;
  disk_floor_gb = coalesce_with s.floor 0;
}

abbrev pub reported : AgentStatus (List ℕ) → ℕ → AgentRow → AgentRow
reported st now a = record a { status = some st; last_status_at = some now }

abbrev pub paused : ℕ → List ℕ → AgentRow → AgentRow
paused until note a = record a { paused_until = some until; pause_note = note }

abbrev pub resumed : AgentRow → AgentRow
resumed a = record a { paused_until = none; pause_note = [] }
