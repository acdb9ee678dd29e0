-- ===== src/Db/Queue/Sweep.antt =====
-- The stale sweep: which rows it leaves alone, and what it does to the others.
use build_system.Prelude.{
  ℕ, ◌≡◌, ◌∙◌, ◌⊎◌, ap, sym, subst, refl, inl, inr, true, false, not, ◌&&◌, List, [], ◌∷◌, Option,
  none, some, map, ◌==◌, ==_iff, if_rule, Bool-cases, All, arith, if◌then◌else◌,
}
use build_system.Models.Status.{running, failed}
use build_system.Db.Builds.{Build, Change, is, gives_up, fail_stale, with_note, logged}
use build_system.Db.BuildLog.{BuildLog, append_build_log}
use build_system.Db.Builds.Lifecycle.{sweeps, run_op, IsSound, Follows, Ensures, run_op-Follows}
use build_system.Db.Builds.Runs.{after}
use build_system.Db.Queue.{StaleBuild, at_row, scan_stale, fail_each, fail_stale_running}

-- What the second loop does to one row.
sweep_row : ℕ → ℕ → List StaleBuild → Build → Build
sweep_row floor now [] b = b
sweep_row floor now (s ∷ stale) b =
    sweep_row floor now stale (if b.id == s.id then after b (fail_stale floor now s.note b) else b)

at_row-map :
    (id : ℕ) (op : Build → Change) (bs : List Build)
    → at_row id op bs ≡ map (λ b. if b.id == id then after b (op b) else b) bs
unfolding at_row
at_row-map id op [] = refl
at_row-map id op (b ∷ bs) =
    ap (λ l. (if b.id == id then after b (op b) else b) ∷ l) (at_row-map id op bs)

map-map_same : (f g : Build → Build) (bs : List Build) → map f (map g bs) ≡ map (λ b. f (g b)) bs
map-map_same f g [] = refl
map-map_same f g (b ∷ bs) = ap (λ l. f (g b) ∷ l) (map-map_same f g bs)

map_id : (bs : List Build) → bs ≡ map (λ b. b) bs
map_id [] = refl
map_id (b ∷ bs) = ap (λ l. b ∷ l) (map_id bs)

fail_each-map :
    (floor now : ℕ) (stale : List StaleBuild) (bs : List Build)
    → fail_each floor now stale bs ≡ map (sweep_row floor now stale) bs
unfolding fail_each sweep_row
fail_each-map floor now [] bs = map_id bs
fail_each-map floor now (s ∷ stale) bs =
    fail_each-map floor now stale (at_row s.id (fail_stale floor now s.note) bs)
    ∙ ap (map (sweep_row floor now stale)) (at_row-map s.id (fail_stale floor now s.note) bs)
    ∙ map-map_same (sweep_row floor now stale) _ bs

-- A row that is not running, or whose agent still checks in, is not touched.
sweep_row_spared :
    (floor now : ℕ) (stale : List StaleBuild) (b : Build)
    → (is running b && gives_up floor now b) ≡ false
    → sweep_row floor now stale b ≡ b
unfolding sweep_row fail_stale
sweep_row_spared floor now [] b h = refl
sweep_row_spared floor now (s ∷ stale) b h =
    if_rule (λ x. sweep_row floor now stale x ≡ b) (b.id == s.id) _ _
      (λ e.
        if_rule (λ c. sweep_row floor now stale (after b c) ≡ b)
          (is running b && gives_up floor now b) _ _ (λ k. absurd (cc (k, h)))
          λ k. sweep_row_spared floor now stale b h)
      λ e. sweep_row_spared floor now stale b h

-- What the sweep does to a row that it changes.
pub record Swept (except floor now : ℕ) (b b' : Build) : Type 0 where
  pub stale : (is running b && gives_up floor now b) ≡ true
  pub other : (b.id == except) ≡ false
  pub failed_now : b'.status ≡ failed
  pub follows : Follows b b'

pub fail_stale_failed :
    (floor now : ℕ) (note : List ℕ) (b : Build)
    → (is running b && gives_up floor now b) ≡ true
    → Ensures (Follows b) (fail_stale floor now note b)
    → let b' = after b (fail_stale floor now note b) in (b'.status ≡ failed) × Follows b b'
unfolding fail_stale with_note logged
fail_stale_failed floor now note b h =
    if_rule (λ c. Ensures (Follows b) c → ((after b c).status ≡ failed) × Follows b (after b c))
      (is running b && gives_up floor now b) _ _ (λ k. go (append_build_log b.log note))
      λ k. absurd (cc (k, h))
  where
    go :
        (o : Option (BuildLog × ℕ))
        → let c = logged o (record b { status = failed }) in
          Ensures (Follows b) c → ((after b c).status ≡ failed) × Follows b (after b c)
    go none e = absurd e
    go (some (l, start)) e = (refl, e)

failed_spared :
    (floor now : ℕ) (b : Build) → b.status ≡ failed → (is running b && gives_up floor now b) ≡ false
failed_spared floor now b e = ground (arith, e)

sweep_row_lem :
    (except floor now : ℕ) (stale : List StaleBuild) (b : Build)
    → IsSound b
    → All (λ (s : StaleBuild). (s.id == except) ≡ false) stale
    → (sweep_row floor now stale b ≡ b) ⊎ Swept except floor now b (sweep_row floor now stale b)
unfolding sweep_row run_op
sweep_row_lem except floor now [] b sound h = inl refl
sweep_row_lem except floor now (s ∷ stale) b sound h =
    let kept = sweep_row_lem except floor now stale b sound h.1 in
    elim (Bool-cases (is running b && gives_up floor now b)) [
      | inr e ↦ inl (sweep_row_spared floor now (s ∷ stale) b e)
      | inl e ↦
          let b' = after b (fail_stale floor now s.note b) in
          let done =
            fail_stale_failed floor now s.note b e
              (run_op-Follows (sweeps floor now s.note) b sound) in
          let rest = sweep_row_spared floor now stale b' (failed_spared floor now b' done.0) in
          if_rule
            (λ x.
              (sweep_row floor now stale x ≡ b)
              ⊎ Swept except floor now b (sweep_row floor now stale x))
            (b.id == s.id) _ _
            (λ same. inr (
              subst (Swept except floor now b) (sym rest) (record {
                stale = e;
                other = subst (λ n. (n == except) ≡ false) (sym ((==_iff b.id s.id).0 same)) h.0;
                failed_now = done.0;
                follows = done.1;
              })))
            λ differs. kept
    ]

scan_stale-except :
    (except floor now : ℕ) (bs : List Build)
    → All (λ (s : StaleBuild). (s.id == except) ≡ false) (scan_stale except floor now bs)
unfolding scan_stale
scan_stale-except except floor now [] = tt
scan_stale-except except floor now (b ∷ bs) =
    let rest = scan_stale-except except floor now bs in
    if_rule (All (λ (s : StaleBuild). (s.id == except) ≡ false))
      (is running b && not (b.id == except) && gives_up floor now b) _ _
      (λ e. (ground (arith, e), rest)) λ e. rest

-- The rows of two tables, one by one.
abbrev pub Rows : (Build → Build → Type 0) → List Build → List Build → Type 0
Rows R [] [] = Unit
Rows R (b ∷ bs) (c ∷ cs) = R b c × Rows R bs cs
Rows R _ _ = ⊥

Rows-map :
    (R : Build → Build → Type 0) (P : Build → Type 0) (f : Build → Build) (bs : List Build)
    → ((b : Build) → P b → R b (f b))
    → All P bs
    → Rows R bs (map f bs)
Rows-map R P f [] k h = tt
Rows-map R P f (b ∷ bs) k h = (k b h.0, Rows-map R P f bs k h.1)

-- In a table of sound rows, whatever time passes between its two loops, the sweep leaves a row as it is
-- or fails it; a row that it fails was running, without an agent or with a stale heartbeat at the second
-- test, is not the build to spare, and keeps its key and its log, with bytes added at the end.
pub fail_stale_running_lem :
    (except floor now later : ℕ) (bs : List Build)
    → All IsSound bs
    → Rows
        (λ b b'. (b' ≡ b) ⊎ Swept except floor later b b')
        bs
        (fail_stale_running except floor now later bs)
unfolding fail_stale_running
fail_stale_running_lem except floor now later bs h =
    let stale = scan_stale except floor now bs in
    let R = λ (b : Build). λ (b' : Build). (b' ≡ b) ⊎ Swept except floor later b b' in
    subst (Rows R bs) (sym (fail_each-map floor later stale bs)) (
      Rows-map R IsSound (sweep_row floor later stale) bs
        (λ b sound.
          sweep_row_lem except floor later stale b sound (scan_stale-except except floor now bs))
        h)
