-- ===== src/Api/Intake/Queued.antt =====
-- The builds that wait for the local runner, and its channel.
use build_system.Prelude.{
  ℕ, suc, ◌≤◌, ◌≡◌, ◌∙◌, ap, sym, subst, refl, String, Bool, true, false, not, ◌&&◌, ◌||◌, List, [],
  ◌∷◌, ◌++◌, Option, none, some, length, ltb, ◌==◌, ==_iff, All, if_rule, arith, All-map,
  All-append,
}
use build_system.Models.Status.{pending, failed}
use build_system.Models.Agent.{remote}
use build_system.Models.Project.{Project}
use build_system.Db.BuildLog.{BuildLog, new_log, append_build_log}
use build_system.Db.BuildLog.Append.{AppendsTo, append_build_log-AppendsTo, IsStored}
use build_system.Db.Builds.{Build, is, fail_pending_build, with_note, logged}
use build_system.Db.Builds.Runs.{after}
use build_system.Db.Queue.{at_row, find_project, find_build, created, create_build, last_id}
use build_system.Db.Queue.Rows.{at_row-All, last_id-All, find_project-id}
use build_system.Api.Intake.{
  Desk, offer, dispatch, make_build, answered, made, handle_trigger_build, rerun_of,
  handle_rerun_build,
}
use build_system.Poller.{queue_full}

abbrev pub has_id : ℕ → List ℕ → Bool
has_id id [] = false
has_id id (x ∷ xs) = id == x || has_id id xs

abbrev pub here : Option Project → Bool
here none = false
here (some p) = not (remote p.executor)

-- A row that only the local runner can take.
unfoldable pub waits_here : List Project → Build → Bool
waits_here ps b = is pending b && here (find_project b.project ps)

-- A waiting row is in the channel, or its id is one that the worker takes out meanwhile.
abbrev pub IsSent : (ℕ → Bool) → List Project → List ℕ → Build → Type 0
IsSent taken ps ch b = waits_here ps b ≡ true → (has_id b.id ch || taken b.id) ≡ true

abbrev pub IsQueued : (ℕ → Bool) → Desk → Type 0
IsQueued taken s = All (IsSent taken s.db.projects s.build_ch) s.db.builds

pub has_id-append : (id n : ℕ) (ch : List ℕ) → has_id id (ch ++ n ∷ []) ≡ (has_id id ch || id == n)
has_id-append id n [] = ground arith
has_id-append id n (x ∷ ch) = ground (arith, has_id-append id n ch)

pub IsSent-more :
    (taken : ℕ → Bool) (ps : List Project) (ch : List ℕ) (n : ℕ) (b : Build)
    → IsSent taken ps ch b
    → IsSent taken ps (ch ++ n ∷ []) b
IsSent-more taken ps ch n b h e = ground (arith, h e, has_id-append b.id n ch)

-- A failed row waits for nobody.
failed-IsSent :
    (taken : ℕ → Bool) (ps : List Project) (ch : List ℕ) (b : Build)
    → is pending b ≡ false
    → IsSent taken ps ch b
unfolding waits_here
failed-IsSent taken ps ch b h e = ground (arith, h, e)

-- The note of a row with a well-formed log is written.
pub fail_pending-starts :
    (now : ℕ) (note : List ℕ) (b : Build)
    → IsStored b.log
    → is pending (after b (fail_pending_build now note b)) ≡ false
unfolding fail_pending_build with_note logged
fail_pending-starts now note b stored =
    if_rule (λ c. is pending (after b c) ≡ false) (is pending b) _ _
      (λ e. go (append_build_log b.log note) (append_build_log-AppendsTo b.log note stored)) λ e. e
  where
    go :
        (o : Option (BuildLog × ℕ))
        → AppendsTo b.log note o
        → is pending (after b (logged o (record b { status = failed; finished_at = some now })))
          ≡ false
    go none a = absurd a
    go (some (l, start)) a = refl

-- A build for an agent waits for the agent.
far-IsSent :
    (taken : ℕ → Bool) (ps : List Project) (ch : List ℕ) (p : Project) (b : Build)
    → find_project b.project ps ≡ some p
    → remote p.executor ≡ true
    → IsSent taken ps ch b
unfolding waits_here
far-IsSent taken ps ch p b found far e = ground (arith, ap here found, far, e)

-- What the new row may be, where the channel is full.
abbrev Fails : (ℕ → Bool) → List Project → List ℕ → ℕ → Build → Type 0
Fails taken ps ch id b =
    (b.id == id ≡ false → IsSent taken ps ch b) × (b.id == id ≡ true → IsStored b.log)

old-Fails :
    (taken : ℕ → Bool) (ps : List Project) (ch : List ℕ) (last : ℕ) (bs : List Build)
    → All (IsSent taken ps ch) bs
    → All (λ b. b.id ≤ last) bs
    → All (Fails taken ps ch (suc last)) bs
old-Fails taken ps ch last [] h k = tt
old-Fails taken ps ch last (b ∷ bs) h k = (
  ((λ e. h.0), λ e. absurd (omega (arith, k.0, (==_iff b.id (suc last)).0 e))),
  old-Fails taken ps ch last bs h.1 k.1,
)

full-IsQueued :
    (taken : ℕ → Bool) (now : ℕ) (note : List ℕ) (ps : List Project) (ch : List ℕ) (bs : List Build)
    (n : Build)
    → n.id ≡ suc (last_id bs)
    → IsStored n.log
    → All (IsSent taken ps ch) bs
    → All
        (IsSent taken ps ch)
        (at_row (suc (last_id bs)) (fail_pending_build now note) (bs ++ n ∷ []))
full-IsQueued taken now note ps ch bs n same stored h =
    let id = suc (last_id bs) in
    let op = fail_pending_build now note in
    at_row-All (Fails taken ps ch id) (IsSent taken ps ch) id op (bs ++ n ∷ [])
      (λ b k e. failed-IsSent taken ps ch (after b (op b)) (fail_pending-starts now note b (k.1 e)))
      (λ b k e. k.0 e)
      (All-append (Fails taken ps ch id) bs (n ∷ [])
        (old-Fails taken ps ch (last_id bs) bs h (last_id-All bs))
        (((λ e. absurd (cc (e, (==_iff n.id id).1 same))), λ e. stored), tt))

new-IsStored : IsStored new_log
new-IsStored = (refl, refl)

-- A build that is made for a project of the store is handed over, or failed.
pub make_build-IsQueued :
    (taken : ℕ → Bool) (now : ℕ) (p : Project) (sha : String) (s : Desk)
    → find_project p.id s.db.projects ≡ some p
    → IsQueued taken s
    → IsQueued taken (make_build now p sha s).0
unfolding make_build dispatch offer create_build created
make_build-IsQueued taken now p sha s found h =
    let n = created now p.id pending sha s.db.builds in
    let id = suc (last_id s.db.builds) in
    let ps = s.db.projects in
    let more = s.build_ch ++ id ∷ [] in
    let Q = λ (x : Desk × Bool). IsQueued taken x.0 in
    if_rule Q (remote p.executor) _ _
      (λ far.
        All-append (IsSent taken ps s.build_ch) s.db.builds (n ∷ []) h
          (far-IsSent taken ps s.build_ch p n found far, tt))
      λ near.
        if_rule Q (ltb (length s.build_ch) s.capacity) _ _
          (λ room.
            All-append (IsSent taken ps more) s.db.builds (n ∷ [])
              (All-map {P = IsSent taken ps s.build_ch} {Q = IsSent taken ps more}
                (IsSent-more taken ps s.build_ch id) s.db.builds h)
              ((λ e. ground (arith, has_id-append id id s.build_ch)), tt))
          λ full. full-IsQueued taken now queue_full ps s.build_ch s.db.builds n refl new-IsStored h

-- A project that was found is found again under its own id.
pub found_again :
    (id : ℕ) (ps : List Project) (p : Project)
    → find_project id ps ≡ some p
    → find_project p.id ps ≡ some p
found_again id ps p e = ap (λ n. find_project n ps) (find_project-id id ps p e) ∙ e

pub answered-desk : (id : ℕ) (o : Desk × Bool) → (answered id o).0 ≡ o.0
answered-desk id (s, true) = refl
answered-desk id (s, false) = refl

made-IsQueued :
    (taken : ℕ → Bool) (now id : ℕ) (o : Option Project) (sha : String) (s : Desk)
    → find_project id s.db.projects ≡ o
    → IsQueued taken s
    → IsQueued taken (made now o sha s).0
made-IsQueued taken now id none sha s e h = h
made-IsQueued taken now id (some p) sha s e h =
    subst (IsQueued taken) (sym (answered-desk _ (make_build now p sha s)))
      (make_build-IsQueued taken now p sha s (found_again id s.db.projects p e) h)

rerun-IsQueued :
    (taken : ℕ → Bool) (now : ℕ) (o : Option Build) (s : Desk)
    → IsQueued taken s
    → IsQueued taken (rerun_of now o s).0
rerun-IsQueued taken now none s h = h
rerun-IsQueued taken now (some b) s h =
    made-IsQueued taken now b.project (find_project b.project s.db.projects) b.commit_sha s refl h

pub trigger-IsQueued :
    (taken : ℕ → Bool) (now id : ℕ) (s : Desk)
    → IsQueued taken s
    → IsQueued taken (handle_trigger_build now id s).0
unfolding handle_trigger_build
trigger-IsQueued taken now id s h =
    made-IsQueued taken now id (find_project id s.db.projects) "manual" s refl h

pub rerun_build-IsQueued :
    (taken : ℕ → Bool) (now id : ℕ) (s : Desk)
    → IsQueued taken s
    → IsQueued taken (handle_rerun_build now id s).0
unfolding handle_rerun_build
rerun_build-IsQueued taken now id s h = rerun-IsQueued taken now (find_build id s.db.builds) s h
