-- ===== src/Poller/Baseline.antt =====
-- The baseline of a project moves to a commit only when that commit has a build.
use build_system.Prelude.{
  ℕ, ◌≡◌, ◌∙◌, ◌⊎◌, ap, sym, subst, inl, inr, String, true, false, not, ◌&&◌, ◌++◌, ◌||◌, List, [],
  ◌∷◌, map, some, length, ltb, ◌==◌, if_rule, Bool-cases, if◌then◌else◌, arith, some-injective,
}
use build_system.Prelude.Text.{str_eq, eq_iff}
use build_system.Models.Status.{pending}
use build_system.Models.Agent.{remote}
use build_system.Models.Project.{Project}
use build_system.Db.Builds.{Build}
use build_system.Db.Queue.{find_project, created, create_build}
use build_system.Poller.{
  Poller, Faults, try_touch, with_builds, tip, observe, builds_commit, has_build_for_commit,
  has_active_build, update_poll_state, hand_over, queue_build, queue_full, poll_tip, poll_found,
  poll_project, short, touch,
}
use build_system.Db.Queue.Rows.{find_project-id}
use build_system.Poller.Once.{some_build-at_row, some_build-append}

-- The row that a poll of `id` reads afterwards.
find_project-observe :
    (id : ℕ) (sha : String) (ps : List Project) (p' : Project)
    → find_project id (map (observe id sha) ps) ≡ some p'
    → p'.last_polled_sha ≡ sha
unfolding find_project
find_project-observe id sha [] p' e = absurd (cc)
find_project-observe id sha (x ∷ ps) p' e =
    if_rule
      (λ (y : Project).
        (if y.id == id then some y else find_project id (map (observe id sha) ps)) ≡ some p'
        → p'.last_polled_sha ≡ sha)
      (x.id == id) _ _
      (λ same k.
        if_rule (λ o. o ≡ some p' → p'.last_polled_sha ≡ sha) (x.id == id) _ _
          (λ e' k'. ap (λ (y : Project). y.last_polled_sha) (sym (some-injective _ _ k')))
          (λ e' k'. absurd (cc (same, e'))) k)
      (λ other k.
        if_rule (λ o. o ≡ some p' → p'.last_polled_sha ≡ sha) (x.id == id) _ _
          (λ e' k'. absurd (cc (other, e'))) (λ e' k'. find_project-observe id sha ps p' k') k)
      e

-- The baseline stays, or is the first one, or has a build.
abbrev pub IsCovered : Project → Project → List Build → Type 0
IsCovered p p' bs =
    (p'.last_polled_sha ≡ p.last_polled_sha)
    ⊎ (str_eq p.last_polled_sha "" ≡ true)
    ⊎ (has_build_for_commit p.id p'.last_polled_sha bs ≡ true)

abbrev pub Covers : Project → Poller → Type 0
Covers p s = (p' : Project) → find_project p.id s.db.projects ≡ some p' → IsCovered p p' s.db.builds

touched :
    (p : Project) (sha : String) (s : Poller)
    → ((x : String)
        → x ≡ sha
        → (x ≡ p.last_polled_sha)
          ⊎ (str_eq p.last_polled_sha "" ≡ true)
          ⊎ (has_build_for_commit p.id x s.db.builds ≡ true))
    → Covers p (touch p.id sha s)
unfolding update_poll_state
touched p sha s k p' e = k p'.last_polled_sha (find_project-observe p.id sha s.db.projects p' e)

created-commit :
    (now project : ℕ) (sha : String) (bs : List Build)
    → str_eq sha "" ≡ false
    → has_build_for_commit project sha (create_build now project pending sha bs) ≡ true
unfolding create_build created
created-commit now project sha bs full = ground (
  arith,
  full,
  eq_iff sha sha,
  some_build-append (builds_commit project sha) bs (created now project pending sha bs),
)

handed :
    (now : ℕ) (f : Faults) (p : Project) (id : ℕ) (s : Poller)
    → Covers p s
    → Covers p (hand_over now f p id s)
unfolding hand_over
handed now f p id s h =
    if_rule (Covers p) (remote p.executor) _ _ (λ e. h)
      λ e.
        if_rule (Covers p) (ltb (length s.build_ch) s.capacity) _ _ (λ e'. h)
          λ e'.
            if_rule (Covers p) f.note_fails _ _ (λ e''. h)
              λ e'' p' k.
                subst
                  (λ b.
                    (p'.last_polled_sha ≡ p.last_polled_sha)
                    ⊎ (str_eq p.last_polled_sha "" ≡ true)
                    ⊎ ((if str_eq p'.last_polled_sha "" then false else b) ≡ true))
                  (sym (some_build-at_row id now queue_full p.id p'.last_polled_sha s.db.builds))
                  (h p' k)

tried :
    (f : Faults) (p : Project) (sha : String) (s : Poller)
    → Covers p s
    → ((x : String)
        → x ≡ sha
        → (x ≡ p.last_polled_sha)
          ⊎ (str_eq p.last_polled_sha "" ≡ true)
          ⊎ (has_build_for_commit p.id x s.db.builds ≡ true))
    → Covers p (try_touch f p.id sha s)
tried f p sha s h k = if_rule (Covers p) f.touch_fails _ _ (λ e. h) λ e. touched p sha s k

covered_by :
    (p : Project) (sha : String) (bs : List Build)
    → has_build_for_commit p.id sha bs ≡ true
    → (x : String) → x ≡ sha
    → (x ≡ p.last_polled_sha)
      ⊎ (str_eq p.last_polled_sha "" ≡ true)
      ⊎ (has_build_for_commit p.id x bs ≡ true)
covered_by p sha bs built x k =
    inr (inr (subst (λ y. has_build_for_commit p.id y bs ≡ true) (sym k) built))

-- A row is added: what had a build has one.
grown :
    (p : Project) (n : Build) (s : Poller)
    → Covers p s
    → Covers p (with_builds (s.db.builds ++ n ∷ []) s)
grown p n s h p' k = elim (h p' k) [
  | inl e ↦ inl e
  | inr (inl e) ↦ inr (inl e)
  | inr (inr e) ↦ inr (
      inr (
        ground (arith, e, some_build-append (builds_commit p.id p'.last_polled_sha) s.db.builds n)))
]

module _ (between : ℕ → Poller → Poller) where
  poll_tip-Covers :
      (now : ℕ) (f : Faults) (p : Project) (sha : String) (s : Poller)
      → str_eq sha "" ≡ false
      → ((n : ℕ) (x : Poller) → Covers p x → Covers p (between n x))
      → ((n : ℕ) (x : Poller)
          → has_build_for_commit p.id sha x.db.builds ≡ true
          → has_build_for_commit p.id sha (between n x).db.builds ≡ true)
      → Covers p s
      → Covers p (poll_tip between now f p sha s)
  unfolding poll_tip queue_build create_build
  poll_tip-Covers now f p sha s full keeps stays h =
      let prev = p.last_polled_sha in
      let s1 = between 1 s in
      let s2 = between 2 s1 in
      let h1 = keeps 1 s h in
      let h2 = keeps 2 s1 h1 in
      if_rule (Covers p) (str_eq prev "" || str_eq prev sha) _ _
        (λ e. tried f p sha s h (λ x k. elim (Bool-cases (str_eq prev "")) [
          | inl first ↦ inr (inl first)
          | inr later ↦ inl (k ∙ sym ((eq_iff prev sha).0 (ground (arith, e, later))))
        ]))
        λ e.
          if_rule (Covers p) (not f.built_fails && has_build_for_commit p.id sha s.db.builds) _ _
            (λ built.
              tried f p sha s1 h1
                (covered_by p sha s1.db.builds (stays 1 s (ground (arith, built)))))
            λ fresh.
              if_rule (Covers p) (not f.active_fails && has_active_build p.id s1.db.builds) _ _
                (λ busy. tried f p prev s2 h2 (λ x k. inl k))
                λ idle.
                  if_rule (Covers p) f.create_fails _ _ (λ lost. h2)
                    λ made.
                      let bs = create_build now p.id pending sha s2.db.builds in
                      let s3 = with_builds bs s2 in
                      let built = stays 3 s3 (created-commit now p.id sha s2.db.builds full) in
                      let h3 =
                        keeps 3 s3 (grown p (created now p.id pending sha s2.db.builds) s2 h2) in
                      handed now f p _ _ (
                        keeps 4 _ (
                          tried f p sha (between 3 s3) h3
                            (covered_by p sha (between 3 s3).db.builds built)))

  -- Whichever of its statements fail, a poll that finds a tip whose name is not empty leaves the
  -- project's baseline where it was when the poll began, or sets the first one, or moves it to a commit
  -- that has a build; if what others do before its statements keeps this, and deletes no build of the
  -- tip's commit.
  pub poll_project-IsCovered :
      (now : ℕ) (f : Faults) (id : ℕ) (sha : String) (s : Poller) (p p' : Project)
      → str_eq (short sha) "" ≡ false
      → ((n : ℕ) (x : Poller) → Covers p x → Covers p (between n x))
      → ((n : ℕ) (x : Poller)
          → has_build_for_commit p.id (short sha) x.db.builds ≡ true
          → has_build_for_commit p.id (short sha) (between n x).db.builds ≡ true)
      → find_project id s.db.projects ≡ some p
      → find_project id (poll_project between now f id (tip sha) s).db.projects ≡ some p'
      → IsCovered p p' (poll_project between now f id (tip sha) s).db.builds
  unfolding poll_project
  poll_project-IsCovered now f id sha s p p' full keeps stays e e' =
      let same = find_project-id id s.db.projects p e in
      let found : poll_found between now f (find_project id s.db.projects) (tip sha) s
          ≡ poll_tip between now f p (short sha) (between 0 s) =
        ap (λ o. poll_found between now f o (tip sha) s) e in
      let start : Covers p s = λ q k. inl (
        ap (λ (y : Project). y.last_polled_sha)
          (sym (
            some-injective _ _ (sym e ∙ ap (λ i. find_project i s.db.projects) (sym same) ∙ k)))) in
      let after = poll_tip between now f p (short sha) (between 0 s) in
      subst (λ (x : Poller). IsCovered p p' x.db.builds) (sym found)
        (poll_tip-Covers now f p (short sha) (between 0 s) full keeps stays (keeps 0 s start) p' (
          ap (λ k. find_project k after.db.projects) same
          ∙ ap (λ (x : Poller). find_project id x.db.projects) (sym found)
          ∙ e'))
