-- ===== src/Poller/Once.antt =====
-- The commits that polling queues builds of.
use build_system.Prelude.{
  ℕ, ◌≡◌, ◌⊎◌, ap₂, sym, subst, refl, inl, inr, String, Bool, true, false, not, ◌&&◌, ◌||◌, List,
  [], ◌∷◌, ◌++◌, Option, none, some, length, ltb, ◌==◌, if_rule, if◌then◌else◌, arith,
}
use build_system.Prelude.Text.{str_eq, eq_iff}
use build_system.Models.Status.{pending, failed}
use build_system.Models.Agent.{remote}
use build_system.Models.Project.{Project}
use build_system.Db.BuildLog.{BuildLog, append_build_log}
use build_system.Db.Builds.{Build, logged, with_note, fail_pending_build, is}
use build_system.Db.Builds.Runs.{after}
use build_system.Db.Queue.{at_row, find_project, created, create_build}
use build_system.Poller.{
  Faults, try_touch, Poller, tip, builds_commit, some_build, has_build_for_commit, has_active_build,
  update_poll_state, hand_over, queue_build, queue_full, poll_tip, poll_found, poll_project, short,
}

-- No two builds of one project have the same commit, unless it is empty.
abbrev pub Distinct : List Build → Type 0
Distinct [] = Unit
Distinct (b ∷ bs) =
    ((str_eq b.commit_sha "" ≡ true)
      ⊎ (some_build (builds_commit b.project b.commit_sha) bs ≡ false))
    × Distinct bs

abbrev SameKey : Build → Build → Type 0
SameKey b c = (b.project ≡ c.project) × (b.commit_sha ≡ c.commit_sha)

fail_pending-SameKey :
    (now : ℕ) (note : List ℕ) (b : Build) → SameKey (after b (fail_pending_build now note b)) b
unfolding fail_pending_build with_note logged
fail_pending-SameKey now note b =
    if_rule (λ c. SameKey (after b c) b) (is pending b) _ _ (λ e. go (append_build_log b.log note))
      λ e. (refl, refl)
  where
    go :
        (o : Option (BuildLog × ℕ))
        → SameKey (after b (logged o (record b { status = failed; finished_at = some now }))) b
    go none = (refl, refl)
    go (some (l, start)) = (refl, refl)

at_row-SameKey :
    (id now : ℕ) (note : List ℕ) (b : Build)
    → SameKey (if b.id == id then after b (fail_pending_build now note b) else b) b
at_row-SameKey id now note b =
    if_rule (λ x. SameKey x b) (b.id == id) _ _ (λ e. fail_pending-SameKey now note b)
      λ e. (refl, refl)

pub some_build-at_row :
    (id now : ℕ) (note : List ℕ) (project : ℕ) (sha : String) (bs : List Build)
    → some_build (builds_commit project sha) (at_row id (fail_pending_build now note) bs)
      ≡ some_build (builds_commit project sha) bs
unfolding at_row
some_build-at_row id now note project sha [] = refl
some_build-at_row id now note project sha (b ∷ bs) =
    let k = at_row-SameKey id now note b in
    ap₂ (λ x y. x || y) (ap₂ (λ (p : ℕ) (c : String). p == project && str_eq c sha) k.0 k.1)
      (some_build-at_row id now note project sha bs)

at_row-Distinct :
    (id now : ℕ) (note : List ℕ) (bs : List Build)
    → Distinct bs
    → Distinct (at_row id (fail_pending_build now note) bs)
unfolding at_row
at_row-Distinct id now note [] h = tt
at_row-Distinct id now note (b ∷ bs) h =
    let k = at_row-SameKey id now note b in
    let rest = at_row id (fail_pending_build now note) bs in
    (
      subst
          (λ c.
            (str_eq c "" ≡ true)
            ⊎ (some_build
                  (builds_commit
                    (if b.id == id then after b (fail_pending_build now note b) else b).project c)
                  rest
                ≡ false))
          (sym k.1)
          (subst
            (λ p.
              (str_eq b.commit_sha "" ≡ true)
              ⊎ (some_build (builds_commit p b.commit_sha) rest ≡ false))
            (sym k.0)
            (subst (λ x. (str_eq b.commit_sha "" ≡ true) ⊎ (x ≡ false))
              (sym (some_build-at_row id now note b.project b.commit_sha bs)) h.0)),
      at_row-Distinct id now note bs h.1,
    )

builds_commit-swap :
    (b n : Build)
    → builds_commit n.project n.commit_sha b ≡ false
    → builds_commit b.project b.commit_sha n ≡ false
builds_commit-swap b n h =
    ground (arith, h, eq_iff b.commit_sha n.commit_sha, eq_iff n.commit_sha b.commit_sha)

pub some_build-append :
    (p : Build → Bool) (bs : List Build) (n : Build)
    → some_build p (bs ++ n ∷ []) ≡ (some_build p bs || p n)
some_build-append p [] n = ground arith
some_build-append p (b ∷ bs) n = ground (arith, some_build-append p bs n)

append-Distinct :
    (bs : List Build) (n : Build)
    → Distinct bs
    → some_build (builds_commit n.project n.commit_sha) bs ≡ false
    → Distinct (bs ++ n ∷ [])
append-Distinct [] n h k = (inr refl, tt)
append-Distinct (b ∷ bs) n h k = (grows h.0, append-Distinct bs n h.1 (ground (arith, k)))
  where
    grows :
        (str_eq b.commit_sha "" ≡ true)
          ⊎ (some_build (builds_commit b.project b.commit_sha) bs ≡ false)
        → (str_eq b.commit_sha "" ≡ true)
          ⊎ (some_build (builds_commit b.project b.commit_sha) (bs ++ n ∷ []) ≡ false)
    grows (inl e) = inl e
    grows (inr e) = inr (
        ground (
          arith,
          e,
          some_build-append (builds_commit b.project b.commit_sha) bs n,
          builds_commit-swap b n (ground (arith, k)),
        ))

abbrev Sound : Poller → Type 0
Sound x = Distinct x.db.builds

hand_over-Distinct :
    (now : ℕ) (f : Faults) (p : Project) (id : ℕ) (s : Poller)
    → Distinct s.db.builds
    → Distinct (hand_over now f p id s).db.builds
unfolding hand_over
hand_over-Distinct now f p id s h =
    if_rule Sound (remote p.executor) _ _ (λ e. h)
      λ e.
        if_rule Sound (ltb (length s.build_ch) s.capacity) _ _ (λ e'. h)
          λ e'.
            if_rule Sound f.note_fails _ _ (λ e''. h)
              λ e''. at_row-Distinct id now queue_full s.db.builds h

try_touch-Distinct :
    (f : Faults) (id : ℕ) (sha : String) (s : Poller)
    → Distinct s.db.builds
    → Distinct (try_touch f id sha s).db.builds
unfolding update_poll_state
try_touch-Distinct f id sha s h = if_rule Sound f.touch_fails _ _ (λ e. h) λ e. h

module _ (between : ℕ → Poller → Poller) where
  poll_tip-Distinct :
      (now : ℕ) (f : Faults) (p : Project) (sha : String) (s : Poller)
      → str_eq sha "" ≡ false
      → f.built_fails ≡ false
      → ((n : ℕ) (x : Poller) → Distinct x.db.builds → Distinct (between n x).db.builds)
      → ((n : ℕ) (x : Poller)
          → has_build_for_commit p.id sha x.db.builds ≡ false
          → has_build_for_commit p.id sha (between n x).db.builds ≡ false)
      → Distinct s.db.builds
      → Distinct (poll_tip between now f p sha s).db.builds
  unfolding poll_tip queue_build create_build created
  poll_tip-Distinct now f p sha s full answers keeps alone h =
      let s1 = between 1 s in
      let s2 = between 2 s1 in
      let h1 = keeps 1 s h in
      let h2 = keeps 2 s1 h1 in
      if_rule Sound (str_eq p.last_polled_sha "" || str_eq p.last_polled_sha sha) _ _
        (λ e. try_touch-Distinct f p.id sha s h)
        λ e.
          if_rule Sound (not f.built_fails && has_build_for_commit p.id sha s.db.builds) _ _
            (λ e'. try_touch-Distinct f p.id sha s1 h1)
            λ fresh.
              if_rule Sound (not f.active_fails && has_active_build p.id s1.db.builds) _ _
                (λ e'. try_touch-Distinct f p.id p.last_polled_sha s2 h2)
                λ idle.
                  if_rule Sound f.create_fails _ _ (λ lost. h2)
                    λ made.
                      let still = alone 2 s1 (alone 1 s (ground (arith, fresh, answers))) in
                      let unbuilt : some_build (builds_commit p.id sha) s2.db.builds ≡ false =
                        ground (arith, still, full) in
                      let grown =
                        append-Distinct s2.db.builds (created now p.id pending sha s2.db.builds) h2
                          unbuilt in
                      hand_over-Distinct now f p _ _
                        (keeps 4 _ (try_touch-Distinct f p.id sha _ (keeps 3 _ grown)))

  poll_found-Distinct :
      (now : ℕ) (f : Faults) (o : Option Project) (sha : String) (s : Poller)
      → str_eq (short sha) "" ≡ false
      → f.built_fails ≡ false
      → ((n : ℕ) (x : Poller) → Distinct x.db.builds → Distinct (between n x).db.builds)
      → ((project n : ℕ) (x : Poller)
          → has_build_for_commit project (short sha) x.db.builds ≡ false
          → has_build_for_commit project (short sha) (between n x).db.builds ≡ false)
      → Distinct s.db.builds
      → Distinct (poll_found between now f o (tip sha) s).db.builds
  poll_found-Distinct now f none sha s full answers keeps alone h = h
  poll_found-Distinct now f (some p) sha s full answers keeps alone h =
      poll_tip-Distinct now f p (short sha) (between 0 s) full answers keeps (alone p.id)
        (keeps 0 s h)

  -- If no two builds of a project share a commit, this still holds after a poll that finds a tip whose
  -- name is not empty, whatever is queued, full, deferred or lost, if the look-up of the commit's build
  -- does not fail, and if what others do before the poll's statements keeps it too and makes no build of
  -- that commit.
  pub poll_project-Distinct :
      (now : ℕ) (f : Faults) (id : ℕ) (sha : String) (s : Poller)
      → str_eq (short sha) "" ≡ false
      → f.built_fails ≡ false
      → ((n : ℕ) (x : Poller) → Distinct x.db.builds → Distinct (between n x).db.builds)
      → ((project n : ℕ) (x : Poller)
          → has_build_for_commit project (short sha) x.db.builds ≡ false
          → has_build_for_commit project (short sha) (between n x).db.builds ≡ false)
      → Distinct s.db.builds
      → Distinct (poll_project between now f id (tip sha) s).db.builds
  unfolding poll_project
  poll_project-Distinct now f id sha s full answers keeps alone h =
      poll_found-Distinct now f (find_project id s.db.projects) sha s full answers keeps alone h
