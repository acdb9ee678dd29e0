-- ===== src/Db/Queue/Rows.antt =====
-- What holds of every row of the table, under the operations on rows and the creation of a build.
use build_system.Prelude.{
  ℕ, ◌≤◌, ◌≡◌, true, false, max, List, [], ◌∷◌, All, ◌==◌, if_rule, arith, some, ap, sym, ==_iff,
  some-injective, ◌∙◌, All-map,
}
use build_system.Db.Builds.{Build, Change}
use build_system.Db.Builds.Runs.{after}
use build_system.Models.Project.{Project}
use build_system.Db.Queue.{at_row, last_id, find_project}

pub at_row-All :
    (P Q : Build → Type 0) (id : ℕ) (op : Build → Change) (bs : List Build)
    → ((b : Build) → P b → b.id == id ≡ true → Q (after b (op b)))
    → ((b : Build) → P b → b.id == id ≡ false → Q b)
    → All P bs
    → All Q (at_row id op bs)
unfolding at_row
at_row-All P Q id op [] hit miss h = tt
at_row-All P Q id op (b ∷ bs) hit miss h = (
  if_rule Q (b.id == id) _ _ (λ e. hit b h.0 e) (λ e. miss b h.0 e),
  at_row-All P Q id op bs hit miss h.1,
)

-- No row has an id above the last one.
pub last_id-All : (bs : List Build) → All (λ b. b.id ≤ last_id bs) bs
unfolding last_id
last_id-All [] = tt
last_id-All (b ∷ bs) = (
  omega arith,
  All-map {P = λ x. x.id ≤ last_id bs} {Q = λ x. x.id ≤ max b.id (last_id bs)}
      (λ x h. omega (arith, h)) bs (last_id-All bs),
)

pub find_project-id :
    (id : ℕ) (ps : List Project) (p : Project) → find_project id ps ≡ some p → p.id ≡ id
unfolding find_project
find_project-id id [] p e = absurd (cc)
find_project-id id (x ∷ ps) p e =
    if_rule (λ o. o ≡ some p → p.id ≡ id) (x.id == id) _ _
      (λ same k. ap (λ (y : Project). y.id) (sym (some-injective x p k)) ∙ (==_iff x.id id).0 same)
      (λ other k. find_project-id id ps p k) e
