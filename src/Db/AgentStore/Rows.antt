-- ===== src/Db/AgentStore/Rows.antt =====
-- Reading a row of the table of agents after a statement.
use build_system.Prelude.{
  ◌≡◌, ◌∙◌, ap, sym, refl, inl, inr, String, true, false, Bool-cases, List, [], ◌∷◌, ◌++◌, Option,
  none, some, if_rule, if◌then◌else◌,
}
use build_system.Prelude.Text.{str_eq, eq_iff}
use build_system.Db.AgentStore.Columns.{AgentRow}
use build_system.Db.AgentStore.Table.{on_row, get_agent_row, is_known, upsert, drop_row}

pub str_eq_refl : (s : String) → str_eq s s ≡ true
str_eq_refl s = (eq_iff s s).1 refl

-- A change of a row that keeps its key.
abbrev pub Keeps : (AgentRow → AgentRow) → Type 0
Keeps f = (a : AgentRow) → (f a).name ≡ a.name

abbrev pub on_found : (AgentRow → AgentRow) → Option AgentRow → Option AgentRow
on_found f none = none
on_found f (some a) = some (f a)

pub get_here :
    (name : String) (a : AgentRow) (t : List AgentRow)
    → str_eq a.name name ≡ true
    → get_agent_row name (a ∷ t) ≡ some a
unfolding get_agent_row
get_here name a t e = ap (λ c. if c then some a else get_agent_row name t) e

pub get_past :
    (name : String) (a : AgentRow) (t : List AgentRow)
    → str_eq a.name name ≡ false
    → get_agent_row name (a ∷ t) ≡ get_agent_row name t
unfolding get_agent_row
get_past name a t e = ap (λ c. if c then some a else get_agent_row name t) e

on_here :
    (name : String) (f : AgentRow → AgentRow) (a : AgentRow) (t : List AgentRow)
    → str_eq a.name name ≡ true
    → on_row name f (a ∷ t) ≡ f a ∷ on_row name f t
unfolding on_row
on_here name f a t e = ap (λ c. (if c then f a else a) ∷ on_row name f t) e

on_past :
    (name : String) (f : AgentRow → AgentRow) (a : AgentRow) (t : List AgentRow)
    → str_eq a.name name ≡ false
    → on_row name f (a ∷ t) ≡ a ∷ on_row name f t
unfolding on_row
on_past name f a t e = ap (λ c. (if c then f a else a) ∷ on_row name f t) e

pub get-on_row_same :
    (name : String) (f : AgentRow → AgentRow) (t : List AgentRow)
    → Keeps f
    → get_agent_row name (on_row name f t) ≡ on_found f (get_agent_row name t)
unfolding on_row get_agent_row
get-on_row_same name f [] h = refl
get-on_row_same name f (a ∷ t) h = elim (Bool-cases (str_eq a.name name)) [
  | inl e ↦
      ap (get_agent_row name) (on_here name f a t e)
      ∙ get_here name (f a) (on_row name f t) (ap (λ n. str_eq n name) (h a) ∙ e)
      ∙ ap (on_found f) (sym (get_here name a t e))
  | inr e ↦
      ap (get_agent_row name) (on_past name f a t e)
      ∙ get_past name a (on_row name f t) e
      ∙ get-on_row_same name f t h
      ∙ ap (on_found f) (sym (get_past name a t e))
]

get_cons :
    (name : String) (a : AgentRow) (t u : List AgentRow)
    → get_agent_row name t ≡ get_agent_row name u
    → get_agent_row name (a ∷ t) ≡ get_agent_row name (a ∷ u)
unfolding get_agent_row
get_cons name a t u e = ap (λ o. if str_eq a.name name then some a else o) e

-- Where the key is another one, the first row does not matter twice.
abbrev pub AnotherName : String → String → Type 0
AnotherName m name = str_eq m name ≡ false

not_that_row :
    (m name : String) (a : AgentRow)
    → AnotherName m name
    → str_eq a.name m ≡ true
    → str_eq a.name name ≡ false
not_that_row m name a h e = ap (λ n. str_eq n name) ((eq_iff a.name m).0 e) ∙ h

pub get-on_row_elsewhere :
    (m name : String) (f : AgentRow → AgentRow) (t : List AgentRow)
    → Keeps f
    → AnotherName m name
    → get_agent_row name (on_row m f t) ≡ get_agent_row name t
unfolding on_row
get-on_row_elsewhere m name f [] h k = refl
get-on_row_elsewhere m name f (a ∷ t) h k =
    let rest = get-on_row_elsewhere m name f t h k in
    elim (Bool-cases (str_eq a.name m)) [
      | inl e ↦
          let past = not_that_row m name a k e in
          ap (get_agent_row name) (on_here m f a t e)
          ∙ get_past name (f a) (on_row m f t) (ap (λ n. str_eq n name) (h a) ∙ past)
          ∙ rest
          ∙ sym (get_past name a t past)
      | inr e ↦ ap (get_agent_row name) (on_past m f a t e) ∙ get_cons name a (on_row m f t) t rest
    ]

pub get-drop_row_elsewhere :
    (m name : String) (t : List AgentRow)
    → AnotherName m name
    → get_agent_row name (drop_row m t) ≡ get_agent_row name t
unfolding drop_row
get-drop_row_elsewhere m name [] k = refl
get-drop_row_elsewhere m name (a ∷ t) k =
    let rest = get-drop_row_elsewhere m name t k in
    if_rule (λ l. get_agent_row name l ≡ get_agent_row name (a ∷ t)) (str_eq a.name m) _ _
      (λ e. rest ∙ sym (get_past name a t (not_that_row m name a k e)))
      λ e. get_cons name a (drop_row m t) t rest

get-append :
    (name : String) (t : List AgentRow) (new : AgentRow)
    → is_known (get_agent_row name t) ≡ false
    → get_agent_row name (t ++ new ∷ []) ≡ get_agent_row name (new ∷ [])
unfolding get_agent_row
get-append name [] new h = refl
get-append name (a ∷ t) new h =
    if_rule
      (λ (o : Option AgentRow).
        is_known o ≡ false
        → (if str_eq a.name name then some a else get_agent_row name (t ++ new ∷ []))
          ≡ get_agent_row name (new ∷ []))
      (str_eq a.name name) _ _ (λ e k. absurd (cc k))
      (λ e k.
        ap (λ c. if c then some a else get_agent_row name (t ++ new ∷ [])) e
        ∙ get-append name t new k)
      h

get-append_known :
    (name : String) (t : List AgentRow) (new : AgentRow)
    → AnotherName new.name name
    → get_agent_row name (t ++ new ∷ []) ≡ get_agent_row name t
unfolding get_agent_row
get-append_known name [] new h = ap (λ c. if c then some new else none) h
get-append_known name (a ∷ t) new h =
    ap (λ o. if str_eq a.name name then some a else o) (get-append_known name t new h)

-- The row that an upsert leaves, from the one that was there.
abbrev pub upserted : AgentRow → (AgentRow → AgentRow) → Option AgentRow → Option AgentRow
upserted new f none = some new
upserted new f (some a) = some (f a)

pub get-upsert_same :
    (new : AgentRow) (f : AgentRow → AgentRow) (t : List AgentRow)
    → Keeps f
    → get_agent_row new.name (upsert new f t) ≡ upserted new f (get_agent_row new.name t)
unfolding upsert
get-upsert_same new f t h =
    if_rule (λ l. get_agent_row new.name l ≡ upserted new f (get_agent_row new.name t))
      (is_known (get_agent_row new.name t)) _ _
      (λ e. get-on_row_same new.name f t h ∙ found (get_agent_row new.name t) e)
      λ e.
        get-append new.name t new e
        ∙ get_here new.name new [] (str_eq_refl new.name)
        ∙ missing (get_agent_row new.name t) e
  where
    found : (o : Option AgentRow) → is_known o ≡ true → on_found f o ≡ upserted new f o
    found none e = absurd (cc e)
    found (some a) e = refl

    missing : (o : Option AgentRow) → is_known o ≡ false → some new ≡ upserted new f o
    missing none e = refl
    missing (some a) e = absurd (cc e)

pub get-upsert_elsewhere :
    (new : AgentRow) (name : String) (f : AgentRow → AgentRow) (t : List AgentRow)
    → Keeps f
    → AnotherName new.name name
    → get_agent_row name (upsert new f t) ≡ get_agent_row name t
unfolding upsert
get-upsert_elsewhere new name f t h k =
    if_rule (λ l. get_agent_row name l ≡ get_agent_row name t) (is_known (get_agent_row new.name t))
      _ _ (λ e. get-on_row_elsewhere new.name name f t h k) λ e. get-append_known name t new k
