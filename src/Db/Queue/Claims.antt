-- ===== src/Db/Queue/Claims.antt =====
-- Claiming: what an agent gets, and what several agents get one after the other.
use build_system.Prelude.{
  ℕ, ◌≡◌, ◌≢◌, ◌∙◌, ap, sym, subst, refl, inl, inr, ◌⊎◌, String, Bool, true, false, not, ◌||◌, List,
  [], ◌∷◌, Option, none, some, keep, All, ◌==◌, ==_iff, if_rule, Bool-cases, arith, if◌then◌else◌,
  some-injective,
}
use build_system.Prelude.Text.{str_eq}
use build_system.Models.Status.{pending}
use build_system.Models.Agent.{remote}
use build_system.Models.Project.{is_nonempty}
use build_system.Db.Builds.{Build, is, claim_for_agent}
use build_system.Db.Builds.Runs.{after}
use build_system.Db.Queue.{
  Db, at_row, find_build, claimable, older, older_of, oldest, claim_candidate,
  claim_build_for_agent,
}

keep-All :
    (P : Build → Type 0) (p : Build → Bool) (bs : List Build)
    → All P bs
    → All (λ b. P b × (p b ≡ true)) (keep p bs)
keep-All P p [] h = tt
keep-All P p (b ∷ bs) h =
    if_rule (All (λ b. P b × (p b ≡ true))) (p b) _ _ (λ e. ((h.0, e), keep-All P p bs h.1))
      λ e. keep-All P p bs h.1

P-older_of :
    (P : Build → Type 0) (b : Build) (o : Option Build)
    → P b
    → ((c : Build) → o ≡ some c → P c)
    → P (older_of b o)
P-older_of P b none h k = h
P-older_of P b (some c) h k = if_rule P (older c b) _ _ (λ e. k c refl) λ e. h

oldest-All :
    (P : Build → Type 0) (bs : List Build) (c : Build) → All P bs → oldest bs ≡ some c → P c
unfolding oldest
oldest-All P [] c h e = absurd (cc)
oldest-All P (b ∷ bs) c h e =
    subst P (some-injective _ _ e) (P-older_of P b (oldest bs) h.0 (λ x k. oldest-All P bs x h.1 k))

oldest-none : (bs : List Build) (P : Build → Type 0) → oldest bs ≡ none → All P bs
unfolding oldest
oldest-none [] P e = tt
oldest-none (b ∷ bs) P e = absurd (cc)

older_trans : (a b c : Build) → older a c ≡ false → older c b ≡ false → older a b ≡ false
older_trans a b c h k = ground arith

older-All :
    (b c : Build) (bs : List Build)
    → older c b ≡ false
    → All (λ y. older y c ≡ false) bs
    → All (λ y. older y b ≡ false) bs
older-All b c [] k h = tt
older-All b c (y ∷ bs) k h = (older_trans y b c h.0 k, older-All b c bs k h.1)

-- Nothing in the list comes before the one chosen.
oldest-first : (bs : List Build) (c : Build) → oldest bs ≡ some c → All (λ b. older b c ≡ false) bs
unfolding oldest
oldest-first [] c e = tt
oldest-first (b ∷ bs) c e =
    subst (λ x. All (λ y. older y x ≡ false) (b ∷ bs)) (some-injective _ _ e)
      (go (oldest bs) refl (λ x k. oldest-first bs x k))
  where
    go :
        (o : Option Build)
        → oldest bs ≡ o
        → ((x : Build) → oldest bs ≡ some x → All (λ y. older y x ≡ false) bs)
        → All (λ y. older y (older_of b o) ≡ false) (b ∷ bs)
    go none k ih = (ground arith, oldest-none bs (λ y. older y b ≡ false) k)
    go (some x) k ih =
        if_rule (λ z. All (λ y. older y z ≡ false) (b ∷ bs)) (older x b) _ _
          (λ later. (ground (arith, later), ih x k))
          λ first. (ground arith, older-All b x bs first (ih x k))

find_build-id : (id : ℕ) (bs : List Build) (b : Build) → find_build id bs ≡ some b → b.id ≡ id
unfolding find_build
find_build-id id [] b e = absurd (cc)
find_build-id id (x ∷ bs) b e =
    if_rule (λ o. o ≡ some b → b.id ≡ id) (x.id == id) _ _
      (λ same k. ap (λ (y : Build). y.id) (sym (some-injective _ _ k)) ∙ (==_iff x.id id).0 same)
      (λ other k. find_build-id id bs b k) e

claimed_row :
    (now : ℕ) (agent : String) (b : Build)
    → is pending (after b (claim_for_agent now agent b)) ≡ false
unfolding claim_for_agent
claimed_row now agent b = ground arith

-- After a claim no row of that id is pending.
claimed_rows :
    (now id : ℕ) (agent : String) (bs : List Build)
    → All (λ b. b.id ≡ id → is pending b ≡ false) (at_row id (claim_for_agent now agent) bs)
unfolding at_row
claimed_rows now id agent [] = tt
claimed_rows now id agent (b ∷ bs) = (
  if_rule (λ (r : Build). r.id ≡ id → is pending r ≡ false) (b.id == id) _ _
      (λ same k. claimed_row now agent b) (λ other k. ground (arith, k)),
  claimed_rows now id agent bs,
)

abbrev pub Has : List Build → Build → Type 0
Has [] b = ⊥
Has (x ∷ xs) b = (x ≡ b) ⊎ Has xs b

Has-weaken :
    (x : Build) (bs : List Build) (qs : List Build) → All (Has bs) qs → All (Has (x ∷ bs)) qs
Has-weaken x bs [] h = tt
Has-weaken x bs (q ∷ qs) h = (inr h.0, Has-weaken x bs qs h.1)

pub All-Has : (bs : List Build) → All (Has bs) bs
All-Has [] = tt
All-Has (x ∷ xs) = (inl refl, Has-weaken x xs xs (All-Has xs))

first_kept :
    (p : Build → Bool) (c : Build) (bs : List Build)
    → All (λ b. older b c ≡ false) (keep p bs)
    → All (λ b. p b ≡ true → older b c ≡ false) bs
first_kept p c [] h = tt
first_kept p c (b ∷ bs) h = elim (Bool-cases (p b)) [
  | inl e ↦
      let both =
        subst (λ k. All (λ x. older x c ≡ false) (if k then b ∷ keep p bs else keep p bs)) e h in
      ((λ k. both.0), first_kept p c bs both.1)
  | inr e ↦
      let rest =
        subst (λ k. All (λ x. older x c ≡ false) (if k then b ∷ keep p bs else keep p bs)) e h in
      ((λ k. absurd (cc (k, e))), first_kept p c bs rest)
]

-- What the candidate of a claim is.
pub record IsNext (db : Db) (executors : List String) (c : Build) : Type 0 where
  pub listed : Has db.builds c
  pub allowed : claimable db executors c ≡ true
  pub first : All (λ b. claimable db executors b ≡ true → older b c ≡ false) db.builds

candidate-IsNext :
    (db : Db) (executors : List String) (c : Build)
    → oldest (keep (claimable db executors) db.builds) ≡ some c
    → IsNext db executors c
candidate-IsNext db executors c e =
    let rows = keep (claimable db executors) db.builds in
    let kept = keep-All (Has db.builds) (claimable db executors) db.builds (All-Has db.builds) in
    let both =
      oldest-All (λ b. Has db.builds b × (claimable db executors b ≡ true)) rows c kept e in
    record {
      listed = both.0;
      allowed = both.1;
      first = first_kept (claimable db executors) c db.builds (oldest-first rows c e);
    }

-- What a claim that returns a build has done.
pub record Claimed (now : ℕ) (agent : String) (executors : List String) (db db' : Db) (b : Build)
    : Type 0 where
  pub candidate : Build
  pub is_next : IsNext db (keep remote executors) candidate
  pub same_id : b.id ≡ candidate.id
  pub rows : db'.builds ≡ at_row candidate.id (claim_for_agent now agent) db.builds
  pub projects : db'.projects ≡ db.projects

claim_candidate-Claimed :
    (now : ℕ) (agent : String) (executors : List String) (db : Db) (o : Option Build) (b : Build)
    → oldest (keep (claimable db (keep remote executors)) db.builds) ≡ o
    → (claim_candidate now agent o db).1 ≡ some b
    → Claimed now agent executors db (claim_candidate now agent o db).0 b
unfolding claim_candidate
claim_candidate-Claimed now agent executors db none b k e = absurd (cc)
claim_candidate-Claimed now agent executors db (some c) b k e = record {
  candidate = c;
  is_next = candidate-IsNext db (keep remote executors) c k;
  same_id = find_build-id c.id _ b e;
  rows = refl;
  projects = refl;
}

-- A claim that returns a build took the oldest pending build of a project that the offered remote
-- executors may serve, wrote the rows of its id only, and left the projects alone.
pub claim-Claimed :
    (now : ℕ) (agent : String) (executors : List String) (db : Db) (b : Build)
    → (claim_build_for_agent now agent executors db).1 ≡ some b
    → Claimed now agent executors db (claim_build_for_agent now agent executors db).0 b
unfolding claim_build_for_agent
claim-Claimed now agent executors db b =
    if_rule (λ (r : Db × Option Build). r.1 ≡ some b → Claimed now agent executors db r.0 b)
      (str_eq agent "" || not (is_nonempty (keep remote executors))) _ _ (λ idle e. absurd (cc))
      λ asks e. claim_candidate-Claimed now agent executors db _ b refl e

claimable_pending :
    (db : Db) (executors : List String) (b : Build)
    → is pending b ≡ false
    → ¬ (claimable db executors b ≡ true)
unfolding claimable
claimable_pending db executors b h k = ground (arith, h, k)

All-at : (P : Build → Type 0) (bs : List Build) (c : Build) → All P bs → Has bs c → P c
All-at P [] c h k = absurd k
All-at P (x ∷ bs) c h (inl e) = subst P e h.0
All-at P (x ∷ bs) c h (inr k) = All-at P bs c h.1 k

-- Two claims, one after the other, by any agents with any executors, never return the same build.
pub claims_differ :
    (now now' : ℕ) (agent agent' : String) (executors executors' : List String) (db : Db)
    (b b' : Build)
    → let db' = (claim_build_for_agent now agent executors db).0 in
      (claim_build_for_agent now agent executors db).1 ≡ some b
      → (claim_build_for_agent now' agent' executors' db').1 ≡ some b'
      → b.id ≢ b'.id
claims_differ now now' agent agent' executors executors' db b b' e e' same =
    let db' = (claim_build_for_agent now agent executors db).0 in
    let first = claim-Claimed now agent executors db b e in
    let second = claim-Claimed now' agent' executors' db' b' e' in
    let taken = claimed_rows now first.candidate.id agent db.builds in
    let c = second.candidate in
    let still : Has (at_row first.candidate.id (claim_for_agent now agent) db.builds) c =
      subst (λ bs. Has bs c) first.rows second.is_next.listed in
    let gone = All-at _ _ c taken still (sym second.same_id ∙ sym same ∙ first.same_id) in
    claimable_pending db' (keep remote executors') c gone second.is_next.allowed
