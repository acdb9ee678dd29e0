-- ===== src/Db/AgentStore/Table.antt =====
-- internal/db/agentstore.go: the statements on the table of agents, and the functions made of them.
use build_system.Prelude.{
  ℕ, zero, suc, String, Bool, true, false, ◌||◌, List, [], ◌∷◌, ◌++◌, Option, none, some, length,
  take, leb, if◌then◌else◌,
}
use build_system.Prelude.Text.{str_eq}
use build_system.Models.Texts.{Piece, pieces, clamp_text, valid_agent_name}
use build_system.Models.Report.{AgentStatus, clamp, max_status_bytes}
use build_system.Db.AgentStore.Columns.{
  AgentRow, SelfReport, Sighted, blank_row, bound, collided, inserted, max_agent_rows,
  max_pause_note_len, paused, reported, resumed, sighted,
}

-- `... WHERE name = ?`.
unfoldable pub on_row : String → (AgentRow → AgentRow) → List AgentRow → List AgentRow
on_row name f [] = []
on_row name f (a ∷ t) = (if str_eq a.name name then f a else a) ∷ on_row name f t

unfoldable pub get_agent_row : String → List AgentRow → Option AgentRow
get_agent_row name [] = none
get_agent_row name (a ∷ t) = if str_eq a.name name then some a else get_agent_row name t

abbrev pub is_known : Option AgentRow → Bool
is_known none = false
is_known (some a) = true

-- `INSERT ... ON CONFLICT(name) DO UPDATE`.
unfoldable pub upsert : AgentRow → (AgentRow → AgentRow) → List AgentRow → List AgentRow
upsert new f t = if is_known (get_agent_row new.name t) then on_row new.name f t else t ++ new ∷ []

unfoldable pub drop_row : String → List AgentRow → List AgentRow
drop_row name [] = []
drop_row name (a ∷ t) = let rest = drop_row name t in if str_eq a.name name then rest else a ∷ rest

-- The statements that change the table.
pub data Statement : Type 0 where
  updates_sighting inserts_sighting : String → Sighted → Statement
  updates_status inserts_status : String → AgentStatus (List ℕ) → ℕ → Statement
  pauses : String → ℕ → List ℕ → Statement
  resumes forgets : String → Statement

unfoldable pub run_statement : Statement → List AgentRow → List AgentRow
run_statement (updates_sighting name s) t = on_row name (sighted s) t
run_statement (inserts_sighting name s) t = upsert (inserted name s) (collided s) t
run_statement (updates_status name st now) t = on_row name (reported st now) t
run_statement (inserts_status name st now) t =
    upsert (reported st now (blank_row name)) (reported st now) t
run_statement (pauses name until note) t =
    upsert (paused until note (blank_row name)) (paused until note) t
run_statement (resumes name) t = on_row name resumed t
run_statement (forgets name) t = drop_row name t

unfoldable pub run_statements : List Statement → List AgentRow → List AgentRow
run_statements [] t = t
run_statements (s ∷ ss) t = run_statements ss (run_statement s t)

-- An UPDATE, and where it meets no row and the table has room, an INSERT.
abbrev pub update_or_insert :
    String → Statement → Statement → List Statement → List AgentRow → List AgentRow
update_or_insert name update insert between t =
    if is_known (get_agent_row name t)
    then run_statement update t
    else if leb max_agent_rows (length t)
    then t
    else run_statement insert (run_statements between t)

-- `RecordAgentSighting`.
unfoldable pub record_agent_sighting :
    String → List String → String → SelfReport → ℕ → List Statement → List AgentRow → List AgentRow
record_agent_sighting name executors scheme self now between t =
    let s = bound executors scheme self now in
    if valid_agent_name (pieces name)
    then update_or_insert name (updates_sighting name s) (inserts_sighting name s) between t
    else t

-- `AgentPausedUntil`.
abbrev pub until_of : Option AgentRow → Option ℕ
until_of none = none
until_of (some a) = a.paused_until

unfoldable pub agent_paused_until : String → List AgentRow → Option ℕ
agent_paused_until name t = until_of (get_agent_row name t)

-- `PauseAgent`, `ResumeAgent` and `ForgetAgent`.
unfoldable pub pause_agent : String → ℕ → List Piece → List AgentRow → List AgentRow
pause_agent name until note t =
    run_statement (pauses name until (clamp_text note max_pause_note_len)) t

unfoldable pub resume_agent : String → List AgentRow → List AgentRow
resume_agent name t = run_statement (resumes name) t

unfoldable pub forget_agent : String → List AgentRow → List AgentRow
forget_agent name t = run_statement (forgets name) t

abbrev pub only_checks : AgentStatus (List ℕ) → ℕ → AgentStatus (List ℕ)
only_checks st k = record {
  checks = take k st.checks;
  unity = [];
  tools = [];
  workspaces = [];
  timeouts = [];
}

-- `json.Marshal`: the length of a report's text.
module _ (size : AgentStatus (List ℕ) → ℕ) where
  -- The loop that drops the last check, with so many left.
  unfoldable pub trim_checks : AgentStatus (List ℕ) → ℕ → AgentStatus (List ℕ)
  trim_checks st zero = only_checks st zero
  trim_checks st (suc k) =
      let fewer = trim_checks st k in
      if leb (size (only_checks st (suc k))) max_status_bytes || leb (suc k) 1
      then only_checks st (suc k)
      else fewer

  -- What is stored of a clamped report.
  unfoldable pub fit_status : AgentStatus (List ℕ) → Option (AgentStatus (List ℕ))
  fit_status st =
      let trimmed = trim_checks st (length st.checks) in
      if leb (size st) max_status_bytes
      then some st
      else if leb (size trimmed) max_status_bytes
      then some trimmed
      else none

  abbrev pub store_status :
      String → ℕ → List Statement → List AgentRow → Option (AgentStatus (List ℕ)) → List AgentRow
  store_status name now between t none = t
  store_status name now between t (some st) =
      update_or_insert name (updates_status name st now) (inserts_status name st now) between t

  -- `RecordAgentStatus`.
  unfoldable pub record_agent_status :
      String
      → Option (AgentStatus (List Piece))
      → ℕ
      → List Statement
      → List AgentRow
      → List AgentRow
  record_agent_status name none now between t = t
  record_agent_status name (some report) now between t =
      if valid_agent_name (pieces name)
      then store_status name now between t (fit_status (clamp report))
      else t
