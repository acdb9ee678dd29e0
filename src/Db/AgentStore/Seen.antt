-- ===== src/Db/AgentStore/Seen.antt =====
-- What a sighting leaves in the table, and the first one of an agent.
use build_system.Prelude.{
  ℕ, ◌≡◌, ◌⊎◌, ◌<◌, ◌∙◌, ap, sym, subst, refl, inl, inr, String, true, Bool-cases, List, [], ◌∷◌,
  Option, none, some, All, length, leb, if_rule, arith,
}
use build_system.Prelude.Int.{ℤ, pos}
use build_system.Prelude.Text.{str_eq, eq_iff}
use build_system.Models.Texts.{pieces, valid_agent_name}
use build_system.Db.AgentStore.Columns.{
  AgentRow, blank_row, SelfReport, bound, nonnegative, coalesce, coalesce_with, sighted, inserted,
  collided, reported, paused, resumed, max_agent_rows,
}
use build_system.Db.AgentStore.Table.{
  on_row, get_agent_row, is_known, upsert, Statement, updates_sighting, inserts_sighting,
  updates_status, inserts_status, pauses, resumes, forgets, run_statement, run_statements,
  record_agent_sighting,
}
use build_system.Db.AgentStore.Rows.{
  Keeps, on_found, AnotherName, upserted, get-on_row_same, get-on_row_elsewhere, get-upsert_same,
  get-upsert_elsewhere, get-drop_row_elsewhere,
}

abbrev pub first_of : Option AgentRow → Option ℕ
first_of none = none
first_of (some a) = a.first_seen_at

-- No statement but the removal of the agent.
abbrev pub KeepsAgent : String → Statement → Type 0
KeepsAgent name (forgets m) = AnotherName m name
KeepsAgent name _ = Unit

abbrev KeepsFirst : (AgentRow → AgentRow) → Type 0
KeepsFirst f = (a : AgentRow) (x : ℕ) → a.first_seen_at ≡ some x → (f a).first_seen_at ≡ some x

first-on_row :
    (m name : String) (f : AgentRow → AgentRow) (t : List AgentRow) (x : ℕ)
    → Keeps f
    → KeepsFirst f
    → first_of (get_agent_row name t) ≡ some x
    → first_of (get_agent_row name (on_row m f t)) ≡ some x
first-on_row m name f t x h k e = elim (Bool-cases (str_eq m name)) [
  | inl same ↦
      let P = λ (n : String).
        first_of (get_agent_row n t) ≡ some x
        → first_of (get_agent_row n (on_row m f t)) ≡ some x in
      subst P ((eq_iff m name).0 same)
        (λ c. ap first_of (get-on_row_same m f t h) ∙ kept (get_agent_row m t) c) e
  | inr other ↦ ap first_of (get-on_row_elsewhere m name f t h other) ∙ e
]
  where
    kept : (o : Option AgentRow) → first_of o ≡ some x → first_of (on_found f o) ≡ some x
    kept none c = absurd (cc c)
    kept (some a) c = k a x c

first-upsert :
    (new : AgentRow) (name : String) (f : AgentRow → AgentRow) (t : List AgentRow) (x : ℕ)
    → Keeps f
    → KeepsFirst f
    → first_of (get_agent_row name t) ≡ some x
    → first_of (get_agent_row name (upsert new f t)) ≡ some x
first-upsert new name f t x h k e = elim (Bool-cases (str_eq new.name name)) [
  | inl same ↦
      let P = λ (n : String).
        first_of (get_agent_row n t) ≡ some x
        → first_of (get_agent_row n (upsert new f t)) ≡ some x in
      subst P ((eq_iff new.name name).0 same)
        (λ c. ap first_of (get-upsert_same new f t h) ∙ kept (get_agent_row new.name t) c) e
  | inr other ↦ ap first_of (get-upsert_elsewhere new name f t h other) ∙ e
]
  where
    kept : (o : Option AgentRow) → first_of o ≡ some x → first_of (upserted new f o) ≡ some x
    kept none c = absurd (cc c)
    kept (some a) c = k a x c

first_kept_once :
    (name : String) (s : Statement) (t : List AgentRow) (x : ℕ)
    → KeepsAgent name s
    → first_of (get_agent_row name t) ≡ some x
    → first_of (get_agent_row name (run_statement s t)) ≡ some x
unfolding run_statement
first_kept_once name (updates_sighting m s) t x h e =
    first-on_row m name (sighted s) t x (λ a. refl) (λ a y c. ap (λ o. coalesce o (some s.now)) c) e
first_kept_once name (inserts_sighting m s) t x h e =
    first-upsert (inserted m s) name (collided s) t x (λ a. refl) (λ a y c. c) e
first_kept_once name (updates_status m st now) t x h e =
    first-on_row m name (reported st now) t x (λ a. refl) (λ a y c. c) e
first_kept_once name (inserts_status m st now) t x h e =
    first-upsert (reported st now (blank_row m)) name (reported st now) t x (λ a. refl) (λ a y c. c)
      e
first_kept_once name (pauses m until note) t x h e =
    first-upsert (paused until note (blank_row m)) name (paused until note) t x (λ a. refl)
      (λ a y c. c) e
first_kept_once name (resumes m) t x h e =
    first-on_row m name resumed t x (λ a. refl) (λ a y c. c) e
first_kept_once name (forgets m) t x h e = ap first_of (get-drop_row_elsewhere m name t h) ∙ e

-- Once an agent has a first sighting, no statements change it, in any number and order, unless the agent
-- is forgotten.
pub first_seen_kept :
    (name : String) (ss : List Statement) (t : List AgentRow) (x : ℕ)
    → All (KeepsAgent name) ss
    → first_of (get_agent_row name t) ≡ some x
    → first_of (get_agent_row name (run_statements ss t)) ≡ some x
unfolding run_statements
first_seen_kept name [] t x h e = e
first_seen_kept name (s ∷ ss) t x h e =
    first_seen_kept name ss (run_statement s t) x h.1 (first_kept_once name s t x h.0 e)

-- The row of a sighting: its time, its executors, and a disk's reading where there is one.
pub record HasSighting (executors : List String) (self : SelfReport) (now : ℕ) (a : AgentRow)
    : Type 0 where
  pub seen : a.last_seen_at ≡ some now
  pub serves : a.executors ≡ executors
  pub free : (n : ℕ) → self.disk_free_gb ≡ some (pos n) → a.disk_free_gb ≡ n

abbrev pub Found : (AgentRow → Type 0) → Option AgentRow → Type 0
Found P none = ⊥
Found P (some a) = P a

read-free : (r : Option ℤ) (n old : ℕ) → r ≡ some (pos n) → coalesce_with (nonnegative r) old ≡ n
read-free r n old e = ap (λ o. coalesce_with (nonnegative o) old) e

updated-HasSighting :
    (executors : List String) (scheme : String) (self : SelfReport) (now : ℕ) (a : AgentRow)
    → HasSighting executors self now (sighted (bound executors scheme self now) a)
updated-HasSighting executors scheme self now a = record {
  seen = refl;
  serves = refl;
  free = λ n e. read-free self.disk_free_gb n a.disk_free_gb e;
}

known-Found :
    (executors : List String) (scheme : String) (self : SelfReport) (now : ℕ) (o : Option AgentRow)
    → is_known o ≡ true
    → Found
        (HasSighting executors self now)
        (on_found (sighted (bound executors scheme self now)) o)
known-Found executors scheme self now none e = absurd (cc e)
known-Found executors scheme self now (some a) e = updated-HasSighting executors scheme self now a

upserted-Found :
    (name : String) (executors : List String) (scheme : String) (self : SelfReport) (now : ℕ)
    (o : Option AgentRow)
    → let s = bound executors scheme self now in
      Found (HasSighting executors self now) (upserted (inserted name s) (collided s) o)
upserted-Found name executors scheme self now none = record {
  seen = refl;
  serves = refl;
  free = λ n e. read-free self.disk_free_gb n 0 e;
}
upserted-Found name executors scheme self now (some a) = record {
  seen = refl;
  serves = refl;
  free = λ n e. read-free self.disk_free_gb n 0 e;
}

-- A sighting of a valid name is recorded, if the agent is known or the table has room, whatever other
-- statements come between its own: the row has the time, the executors, and the disk's reading, a zero
-- included. So a known agent is never refused for a full table.
pub sighting_recorded :
    (name : String) (executors : List String) (scheme : String) (self : SelfReport) (now : ℕ)
    (between : List Statement) (t : List AgentRow)
    → valid_agent_name (pieces name) ≡ true
    → (is_known (get_agent_row name t) ≡ true) ⊎ (length t < 500)
    → Found
        (HasSighting executors self now)
        (get_agent_row name (record_agent_sighting name executors scheme self now between t))
unfolding record_agent_sighting run_statement
sighting_recorded name executors scheme self now between t valid room =
    let s = bound executors scheme self now in
    let P = λ (u : List AgentRow). Found (HasSighting executors self now) (get_agent_row name u) in
    let R = Found (HasSighting executors self now) in
    if_rule P (valid_agent_name (pieces name)) _ _
      (λ e.
        if_rule P (is_known (get_agent_row name t)) _ _
          (λ known.
            subst R (sym (get-on_row_same name (sighted s) t (λ a. refl)))
              (known-Found executors scheme self now (get_agent_row name t) known))
          λ unknown.
            if_rule P (leb max_agent_rows (length t)) _ _
              (λ full. absurd (ground (arith, full, unknown, room)))
              λ some_room.
                subst R
                  (sym (
                    get-upsert_same (inserted name s) (collided s) (run_statements between t)
                      (λ a. refl)))
                  (upserted-Found name executors scheme self now
                    (get_agent_row name (run_statements between t))))
      λ e. absurd (cc (valid, e))
