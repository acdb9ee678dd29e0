-- ===== src/Db/AgentStore/Pauses.antt =====
-- A pause that an operator sets, under the requests of agents.
use build_system.Prelude.{
  ℕ, ◌≡◌, ◌∙◌, ap, subst, refl, inl, inr, String, Bool-cases, List, [], ◌∷◌, Option, none, some,
  All, length, leb, if_rule,
}
use build_system.Prelude.Text.{str_eq, eq_iff}
use build_system.Models.Texts.{Piece, pieces, clamp_text, valid_agent_name}
use build_system.Models.Report.{AgentStatus, clamp}
use build_system.Db.AgentStore.Columns.{
  AgentRow, blank_row, SelfReport, sighted, inserted, collided, reported, paused, resumed,
  max_agent_rows,
}
use build_system.Db.AgentStore.Table.{
  on_row, get_agent_row, is_known, upsert, Statement, updates_sighting, inserts_sighting,
  updates_status, inserts_status, pauses, resumes, forgets, run_statement, run_statements,
  update_or_insert, record_agent_sighting, until_of, agent_paused_until, pause_agent, resume_agent,
  forget_agent, fit_status, store_status, record_agent_status,
}
use build_system.Db.AgentStore.Rows.{
  Keeps, on_found, AnotherName, upserted, get-on_row_same, get-on_row_elsewhere, get-upsert_same,
  get-upsert_elsewhere, get-drop_row_elsewhere,
}

-- A statement that says nothing of this agent's pause.
abbrev pub Spares : String → Statement → Type 0
Spares name (pauses m until note) = AnotherName m name
Spares name (resumes m) = AnotherName m name
Spares name (forgets m) = AnotherName m name
Spares name _ = Unit

until_on_row :
    (m name : String) (f : AgentRow → AgentRow) (t : List AgentRow)
    → Keeps f
    → ((a : AgentRow) → (f a).paused_until ≡ a.paused_until)
    → agent_paused_until name (on_row m f t) ≡ agent_paused_until name t
unfolding agent_paused_until
until_on_row m name f t h k = elim (Bool-cases (str_eq m name)) [
  | inl e ↦
      subst (λ n. until_of (get_agent_row n (on_row m f t)) ≡ until_of (get_agent_row n t))
        ((eq_iff m name).0 e) (ap until_of (get-on_row_same m f t h) ∙ kept (get_agent_row m t))
  | inr e ↦ ap until_of (get-on_row_elsewhere m name f t h e)
]
  where
    kept : (o : Option AgentRow) → until_of (on_found f o) ≡ until_of o
    kept none = refl
    kept (some a) = k a

until_upsert :
    (new : AgentRow) (name : String) (f : AgentRow → AgentRow) (t : List AgentRow)
    → Keeps f
    → new.paused_until ≡ none
    → ((a : AgentRow) → (f a).paused_until ≡ a.paused_until)
    → agent_paused_until name (upsert new f t) ≡ agent_paused_until name t
unfolding agent_paused_until
until_upsert new name f t h fresh k = elim (Bool-cases (str_eq new.name name)) [
  | inl e ↦
      subst (λ n. until_of (get_agent_row n (upsert new f t)) ≡ until_of (get_agent_row n t))
        ((eq_iff new.name name).0 e)
        (ap until_of (get-upsert_same new f t h) ∙ kept (get_agent_row new.name t))
  | inr e ↦ ap until_of (get-upsert_elsewhere new name f t h e)
]
  where
    kept : (o : Option AgentRow) → until_of (upserted new f o) ≡ until_of o
    kept none = fresh
    kept (some a) = k a

spared :
    (name : String) (s : Statement) (t : List AgentRow)
    → Spares name s
    → agent_paused_until name (run_statement s t) ≡ agent_paused_until name t
unfolding run_statement agent_paused_until
spared name (updates_sighting m s) t h = until_on_row m name (sighted s) t (λ a. refl) λ a. refl
spared name (inserts_sighting m s) t h =
    until_upsert (inserted m s) name (collided s) t (λ a. refl) refl λ a. refl
spared name (updates_status m st now) t h =
    until_on_row m name (reported st now) t (λ a. refl) λ a. refl
spared name (inserts_status m st now) t h =
    until_upsert (reported st now (blank_row m)) name (reported st now) t (λ a. refl) refl λ a. refl
spared name (pauses m until note) t h = ap until_of (
    get-upsert_elsewhere (paused until note (blank_row m)) name (paused until note) t (λ a. refl) h)
spared name (resumes m) t h = ap until_of (get-on_row_elsewhere m name _ t (λ a. refl) h)
spared name (forgets m) t h = ap until_of (get-drop_row_elsewhere m name t h)

all_spared :
    (name : String) (ss : List Statement) (t : List AgentRow)
    → All (Spares name) ss
    → agent_paused_until name (run_statements ss t) ≡ agent_paused_until name t
unfolding run_statements
all_spared name [] t h = refl
all_spared name (s ∷ ss) t h = all_spared name ss (run_statement s t) h.1 ∙ spared name s t h.0

update_or_insert_spared :
    (name m : String) (update insert : Statement) (between : List Statement) (t : List AgentRow)
    → Spares name update
    → Spares name insert
    → All (Spares name) between
    → agent_paused_until name (update_or_insert m update insert between t)
      ≡ agent_paused_until name t
update_or_insert_spared name m update insert between t h k l =
    let P = λ (u : List AgentRow). agent_paused_until name u ≡ agent_paused_until name t in
    if_rule P (is_known (get_agent_row m t)) _ _ (λ e. spared name update t h)
      λ e.
        if_rule P (leb max_agent_rows (length t)) _ _ (λ e'. refl)
          λ e'. spared name insert (run_statements between t) k ∙ all_spared name between t l

-- The requests that reach the table, with what others do to it meanwhile.
pub data Request : Type 0 where
  sees : String → List String → String → SelfReport → ℕ → List Statement → Request
  reports : String → Option (AgentStatus (List Piece)) → ℕ → List Statement → Request
  pauses_agent : String → ℕ → List Piece → Request
  resumes_agent forgets_agent : String → Request

-- A request that does not pause, resume or forget this agent, and nothing beside it does.
abbrev pub Leaves : String → Request → Type 0
Leaves name (sees m executors scheme self now between) = All (Spares name) between
Leaves name (reports m st now between) = All (Spares name) between
Leaves name (pauses_agent m until note) = AnotherName m name
Leaves name (resumes_agent m) = AnotherName m name
Leaves name (forgets_agent m) = AnotherName m name

module _ (size : AgentStatus (List ℕ) → ℕ) where
  pub run_request : Request → List AgentRow → List AgentRow
  run_request (sees m executors scheme self now between) t =
      record_agent_sighting m executors scheme self now between t
  run_request (reports m st now between) t = record_agent_status size m st now between t
  run_request (pauses_agent m until note) t = pause_agent m until note t
  run_request (resumes_agent m) t = resume_agent m t
  run_request (forgets_agent m) t = forget_agent m t

  pub run_requests : List Request → List AgentRow → List AgentRow
  run_requests [] t = t
  run_requests (r ∷ rs) t = run_requests rs (run_request r t)

  left_alone :
      (name : String) (r : Request) (t : List AgentRow)
      → Leaves name r
      → agent_paused_until name (run_request r t) ≡ agent_paused_until name t
  unfolding run_request record_agent_sighting record_agent_status pause_agent resume_agent
      forget_agent
  left_alone name (sees m executors scheme self now between) t h =
      if_rule (λ u. agent_paused_until name u ≡ agent_paused_until name t)
        (valid_agent_name (pieces m)) _ _
        (λ e. update_or_insert_spared name m _ _ between t tt tt h) λ e. refl
  left_alone name (reports m none now between) t h = refl
  left_alone name (reports m (some st) now between) t h =
      if_rule (λ u. agent_paused_until name u ≡ agent_paused_until name t)
        (valid_agent_name (pieces m)) _ _ (λ e. go (fit_status size (clamp st))) λ e. refl
    where
      go :
          (o : Option (AgentStatus (List ℕ)))
          → agent_paused_until name (store_status size m now between t o)
            ≡ agent_paused_until name t
      go none = refl
      go (some x) = update_or_insert_spared name m _ _ between t tt tt h
  left_alone name (pauses_agent m until note) t h = spared name (pauses m until _) t h
  left_alone name (resumes_agent m) t h = spared name (resumes m) t h
  left_alone name (forgets_agent m) t h = spared name (forgets m) t h

  all_left :
      (name : String) (rs : List Request) (t : List AgentRow)
      → All (Leaves name) rs
      → agent_paused_until name (run_requests rs t) ≡ agent_paused_until name t
  unfolding run_requests
  all_left name [] t h = refl
  all_left name (r ∷ rs) t h = all_left name rs (run_request r t) h.1 ∙ left_alone name r t h.0

  -- A pause holds until an operator changes it: whatever agents report of themselves, this one
  -- included, and whatever operators do to other agents, and however the statements of these requests
  -- mix, the agent's pause is the last one that was set; and none after a resume.
  pub pause_holds :
      (name : String) (until : ℕ) (note : List Piece) (rs : List Request) (t : List AgentRow)
      → All (Leaves name) rs
      → (agent_paused_until name (run_requests rs (pause_agent name until note t)) ≡ some until)
        × (agent_paused_until name (run_requests rs (resume_agent name t)) ≡ none)
  unfolding pause_agent resume_agent run_statement agent_paused_until
  pause_holds name until note rs t h =
      let set = paused until (clamp_text note 200) in
      (
        all_left name rs (pause_agent name until note t) h
            ∙ ap until_of (get-upsert_same (set (blank_row name)) set t (λ a. refl))
            ∙ set_until (get_agent_row name t),
        all_left name rs (resume_agent name t) h
            ∙ ap until_of (get-on_row_same name resumed t (λ a. refl))
            ∙ cleared (get_agent_row name t),
      )
    where
      set_until :
          (o : Option AgentRow)
          → until_of (
              upserted
                (paused until (clamp_text note 200) (blank_row name))
                (paused until (clamp_text note 200))
                o)
            ≡ some until
      set_until none = refl
      set_until (some a) = refl

      cleared : (o : Option AgentRow) → until_of (on_found resumed o) ≡ none
      cleared none = refl
      cleared (some a) = refl
