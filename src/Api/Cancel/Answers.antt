-- ===== src/Api/Cancel/Answers.antt =====
-- What the answers to a cancel say of the build, with anything between the handler's statements.
use build_system.Prelude.{
  ℕ, ◌-◌, ◌≡◌, ◌≢◌, ◌∙◌, ap, ap₂, subst, refl, inl, inr, Bool-cases, String, Bool, true, false, not,
  ◌&&◌, List, ◌++◌, Option, none, some, length, length-append, ==_iff, ◌==◌, if_rule, arith,
  if◌then◌else◌,
}
use build_system.Prelude.Int.{pos}
use build_system.Models.Status.{
  BuildStatus, pending, running, success, failed, canceled, same_status, terminal,
}
use build_system.Logbus.{Bus, publish_at, publish_status}
use build_system.Db.BuildLog.{BuildLog, build_log_len, append_build_log}
use build_system.Db.BuildLog.Append.{
  contents, build_log_len_lem, IsStored, AppendsTo, append_build_log-AppendsTo,
}
use build_system.Db.Builds.{
  Build, Change, skip, rollback, write, is, is_local, canceled_note, cancel_pending_build,
  with_note, logged, request_agent_cancel,
}
use build_system.Db.Builds.Lifecycle.{IsSound, asks_cancel, cancels, run_op}
use build_system.Db.Builds.Runs.{after}
use build_system.Runner.Registry.{Cause, by_user, Runner, cancel, with_cause}
use build_system.Runner.Worker.{World, Move, others, user_cancels, move, run_moves}
use build_system.Runner.Worker.Owned.{Waits, IsOwned}
use build_system.Runner.Worker.Moves.{move-Kept}
use build_system.Runner.Worker.Runs.{Runs, Runs-trans, Kept-Runs, run_moves-Runs}
use build_system.Api.Cancel.{
  CancelReply, now_canceled, already_canceled, canceling, already_finished, canceling_on,
  CancelOutcome, tell_canceled, tell_canceling, flagged, ask_agent, look_up, ask_worker, tombstoned,
  handle_cancel_build,
}

-- The worker's word, after the moves `first`, was that it has the build: its context has a cause from
-- then on, and the moves `then_moves` have led from there.
pub record IsHit (first then_moves : List Move) (w w' : World) : Type 0 where
  pub hit : (cancel (run_moves first w).build.id (run_moves first w).runner).1 ≡ true
  pub mine : (run_moves first w).runner.current_id ≡ (run_moves first w).build.id
  pub told : (cancel (run_moves first w).build.id (run_moves first w).runner).0.cause ≢ none
  pub since :
      w'
      ≡ run_moves then_moves (record (run_moves first w) {
        runner = (cancel (run_moves first w).build.id (run_moves first w).runner).0;
      })

-- The tombstone's note ends the stored log, and is published at its place there.
pub record IsTombstone (now : ℕ) (w : World) (bus : Bus) (o : CancelOutcome) : Type 0 where
  pub decided : o.world.build.status ≡ canceled
  pub logged : contents o.world.build.log ≡ contents w.build.log ++ canceled_note
  pub published :
      o.bus
      ≡ publish_status
          (publish_at bus w.build.id (pos (length (contents w.build.log))) canceled_note)
          w.build.id
          canceled
          none
          (some now)

abbrev pub IsTold : List Move → List Move → ℕ → World → Bus → CancelOutcome → CancelReply → Type 0
IsTold first then_moves now w bus o now_canceled = IsTombstone now w bus o
IsTold first then_moves now w bus o already_canceled = o.world.build.status ≡ canceled
IsTold first then_moves now w bus o already_finished = terminal o.world.build.status ≡ true
IsTold first then_moves now w bus o canceling = IsHit first then_moves w o.world
IsTold first then_moves now w bus o (canceling_on agent) =
    ((is running o.world.build && not (is_local o.world.build)) ≡ true)
    × (o.world.build.cancel_requested ≡ true)
IsTold first then_moves now w bus o _ = Unit

pub record IsCancel (first then_moves : List Move) (now : ℕ) (w : World) (bus : Bus)
    (o : CancelOutcome) : Type 0 where
  pub runs : Runs w o.world
  pub told : IsTold first then_moves now w bus o o.reply

flagged-IsCancel :
    (first then_moves : List Move) (now : ℕ) (w w' : World) (bus : Bus) (agent : String)
    → Runs w w'
    → IsCancel first then_moves now w bus (flagged agent w' bus (request_agent_cancel w'.build))
unfolding request_agent_cancel move run_op
flagged-IsCancel first then_moves now w w' bus agent r =
    if_rule (λ c. IsCancel first then_moves now w bus (flagged agent w' bus c))
      (is running w'.build && not (is_local w'.build)) _ _
      (λ e. record { runs = Runs-trans w w' _ r (flags e); told = (e, refl) })
      λ e. record { runs = r; told = tt }
  where
    flags :
        (is running w'.build && not (is_local w'.build)) ≡ true
        → Runs w' (record w' { build = record w'.build { cancel_requested = true } })
    flags e =
        subst
          (λ t. Runs w' (record w' {
            build =
                after w'.build
                  (if t then write (record w'.build { cancel_requested = true }) else skip);
          }))
          e (Kept-Runs w' _ (move-Kept (others asks_cancel refl) w' r.owned))

ask_agent-IsCancel :
    (first then_moves : List Move) (now : ℕ) (last : List Move) (w w' : World) (bus : Bus)
    → Runs w w'
    → IsCancel first then_moves now w bus (ask_agent last w' bus)
unfolding ask_agent
ask_agent-IsCancel first then_moves now last w w' bus r =
    if_rule (IsCancel first then_moves now w bus) (is_local w'.build) _ _
      (λ e. record { runs = r; told = tt })
      λ e.
        flagged-IsCancel first then_moves now w (run_moves last w') bus w'.build.agent
          (Runs-trans w w' _ r (run_moves-Runs last w' r.owned))

look_up-IsCancel :
    (first then_moves : List Move) (now : ℕ) (s : BuildStatus) (last : List Move) (w w' : World)
    (bus : Bus)
    → w'.build.status ≡ s
    → Runs w w'
    → IsCancel first then_moves now w bus (look_up s last w' bus)
unfolding look_up
look_up-IsCancel first then_moves now canceled last w w' bus e r = record { runs = r; told = e }
look_up-IsCancel first then_moves now success last w w' bus e r = record {
  runs = r;
  told = ap terminal e;
}
look_up-IsCancel first then_moves now failed last w w' bus e r = record {
  runs = r;
  told = ap terminal e;
}
look_up-IsCancel first then_moves now running last w w' bus e r =
    ask_agent-IsCancel first then_moves now last w w' bus r
look_up-IsCancel first then_moves now pending last w w' bus e r = record { runs = r; told = tt }

tell_canceling-IsCancel :
    (first then_moves : List Move) (now : ℕ) (w w' : World) (bus : Bus)
    → Runs w w'
    → IsHit first then_moves w w'
    → IsCancel first then_moves now w bus (tell_canceling w' bus)
unfolding tell_canceling
tell_canceling-IsCancel first then_moves now w w' bus r hit =
    if_rule (IsCancel first then_moves now w bus)
      (terminal w'.build.status && not (same_status w'.build.status canceled)) _ _
      (λ e. record { runs = r; told = ground (arith, e) }) λ e. record { runs = r; told = hit }

with_cause-some : (c : Cause) (o : Option Cause) → with_cause c o ≢ none
with_cause-some c none e = cc e
with_cause-some c (some d) e = cc e

cancel_hit :
    (id : ℕ) (r : Runner)
    → (cancel id r).1 ≡ true
    → (r.current_id ≡ id) × ((cancel id r).0.cause ≢ none)
unfolding cancel
cancel_hit id r =
    if_rule (λ (x : Runner × Bool). x.1 ≡ true → (r.current_id ≡ id) × (x.0.cause ≢ none))
      (r.current_id == id && r.cancel_current) _ _
      (λ e k. ((==_iff r.current_id id).0 (ground (arith, e)), with_cause-some by_user r.cause))
      λ e k. absurd (cc k)

module _ (now : ℕ) (first then_moves last : List Move) (w : World) (bus : Bus) where
  asked-IsCancel :
      (r : Runner) (heard : Bool)
      → Runs w (record (run_moves first w) { runner = r })
      → Runs w (run_moves first w)
      → (heard ≡ true
          → IsHit first then_moves w
              (run_moves then_moves (record (run_moves first w) { runner = r })))
      → IsCancel first then_moves now w bus
          (ask_worker then_moves last (run_moves first w) bus (r, heard))
  unfolding ask_worker
  asked-IsCancel r true told same hit =
      let asked = record (run_moves first w) { runner = r } in
      tell_canceling-IsCancel first then_moves now w (run_moves then_moves asked) bus
        (Runs-trans w asked _ told (run_moves-Runs then_moves asked told.owned)) (hit refl)
  asked-IsCancel r false told same hit =
      let w' = run_moves first w in
      look_up-IsCancel first then_moves now _ last w (run_moves then_moves w') bus refl
        (Runs-trans w w' _ same (run_moves-Runs then_moves w' same.owned))

  ask_worker-IsCancel :
      Runs w (run_moves first w)
      → IsCancel first then_moves now w bus (
          ask_worker then_moves last
            (run_moves first w)
            bus
            (cancel (run_moves first w).build.id (run_moves first w).runner))
  unfolding move
  ask_worker-IsCancel r =
      let w' = run_moves first w in
      let (asked, heard) = cancel w'.build.id w'.runner in
      asked-IsCancel asked heard
        (Runs-trans w w' _ r (Kept-Runs w' _ (move-Kept (user_cancels w'.build.id) w' r.owned))) r
        λ e.
          let (mine, told) = cancel_hit w'.build.id w'.runner e in
          record { hit = e; mine = mine; told = told; since = refl }

-- What the first statement does to a row.
abbrev IsStruck : Build → Change → Type 0
IsStruck b skip = Unit
IsStruck b rollback = Unit
IsStruck b (write b') =
    (b'.status ≡ canceled)
    × (contents b'.log ≡ contents b.log ++ canceled_note)
    × (b'.id ≡ b.id)
    × (is_local b' ≡ true)

logged-IsStruck :
    (b b' : Build) (o : Option (BuildLog × ℕ))
    → b'.status ≡ canceled
    → b'.id ≡ b.id
    → is_local b' ≡ true
    → AppendsTo b.log canceled_note o
    → IsStruck b (logged o b')
unfolding logged
logged-IsStruck b b' none e same near a = tt
logged-IsStruck b b' (some (l, start)) e same near a = (e, a.1, same, near)

cancel_pending-IsStruck :
    (now : ℕ) (b : Build) → IsSound b → Waits b → IsStruck b (cancel_pending_build now b)
unfolding cancel_pending_build with_note
cancel_pending-IsStruck now b h near =
    if_rule (IsStruck b) (is pending b) _ _
      (λ e.
        logged-IsStruck b (record b { status = canceled; finished_at = some now })
          (append_build_log b.log canceled_note) refl refl (near e)
          (append_build_log-AppendsTo b.log canceled_note h.stored))
      λ e. tt

struck-IsTombstone :
    (now : ℕ) (w w' : World) (b : Build) (bus : Bus)
    → w'.build ≡ b
    → IsStruck w.build (write b)
    → IsStored b.log
    → IsTombstone now w bus (tell_canceled now w' bus)
unfolding tell_canceled
struck-IsTombstone now w w' b bus same (decided, logged, id, near) stored =
    let start : build_log_len w'.build.log - length canceled_note ≡ length (contents w.build.log) =
      omega (
        arith,
        ap (λ (x : Build). build_log_len x.log) same,
        build_log_len_lem b.log stored,
        ap length logged,
        length-append (contents w.build.log) canceled_note,
      ) in
    record {
      decided = ap (λ (x : Build). x.status) same ∙ decided;
      logged = ap (λ (x : Build). contents x.log) same ∙ logged;
      published =
          ap₂
            (λ n i.
              publish_status (publish_at bus i (pos n) canceled_note) i canceled none (some now))
            start (ap (λ (x : Build). x.id) same ∙ id);
    }

tombstoned-IsCancel :
    (now : ℕ) (first then_moves last : List Move) (w : World) (bus : Bus) (c : Change)
    → IsOwned w
    → Runs w (record w { build = after w.build c })
    → IsStruck w.build c
    → IsCancel first then_moves now w bus (tombstoned now first then_moves last w bus c)
unfolding tombstoned tell_canceled
tombstoned-IsCancel now first then_moves last w bus skip h r k =
    ask_worker-IsCancel now first then_moves last w bus (run_moves-Runs first w h)
tombstoned-IsCancel now first then_moves last w bus rollback h r k = record { runs = r; told = tt }
tombstoned-IsCancel now first then_moves last w bus (write b) h r k =
    let struck : World = record w { build = b } in
    let to = run_moves-Runs first struck r.owned in
    let fit : w.unfit ≡ false = elim (Bool-cases w.unfit) [
      | inl e ↦ absurd (cc (k.3, r.owned.remote e))
      | inr e ↦ e
    ] in
    record {
      runs = Runs-trans w struck (run_moves first struck) r to;
      told =
          struck-IsTombstone now w (run_moves first struck) b bus
            (to.frozen (ap terminal k.0) fit).0 k r.extends.sound.stored;
    }

-- Whatever happens to the build between the handler's statements, each answer is true of it: a tombstone
-- has decided the build, and its note is the end of the stored log and is published at that place; a
-- build that already was canceled or finished is; where the answer is that it is being canceled, the
-- worker had it as its current build when this request asked, the request's Cancel gave its context a
-- cause, or found one there, and only the given moves have followed; and one on an agent is running with
-- its flag set. The row stays sound, its log grows at the end only, and a decided build, while no claim
-- handler is about to fail it, is left as it is.
pub handle_cancel_build-IsCancel :
    (now later : ℕ) (first then_moves last : List Move) (w : World) (bus : Bus)
    → IsOwned w
    → IsCancel first then_moves later w bus
        (handle_cancel_build now later first then_moves last w bus)
unfolding handle_cancel_build move run_op
handle_cancel_build-IsCancel now later first then_moves last w bus h =
    tombstoned-IsCancel later first then_moves last w bus (cancel_pending_build now w.build) h
      (Kept-Runs w _ (move-Kept (others (cancels now) refl) w h))
      (cancel_pending-IsStruck now w.build h.sound h.waiting)
