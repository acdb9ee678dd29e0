-- ===== src/Runner/Worker/Sticks.antt =====
-- A user's cancel of the worker's build, and a shutdown that follows it.
use build_system.Prelude.{
  ◌≡◌, ◌≢◌, ◌⊎◌, inl, inr, ap, refl, ℕ, String, Bool, true, false, ◌&&◌, List, [], ◌∷◌, none, ◌==◌,
  if_rule, arith,
}
use build_system.Models.Status.{pending, failed}
use build_system.Db.Builds.{Build, claim_for_agent, finish_build}
use build_system.Db.Builds.Lifecycle.{run_op}
use build_system.Db.Builds.Runs.{after}
use build_system.Runner.Registry.{
  by_user, shut_down, timed_out, Runner, with_cause, cancel, set_step, stop, expire, sweep_stale,
}
use build_system.Runner.Worker.{
  Phase, starting, executing, World, is_current, Move, registers, tries_claim, prints, closes,
  hands_back, explains, records, opens, breaks, leaves, times_out, shuts_down, enters, user_cancels,
  janitor_sweeps, others, claims_unfit, drops_unfit, claim_unfit, drop_unfit, move, run_moves,
}
use build_system.Runner.Worker.Owned.{holds, IsOwned}
use build_system.Runner.Worker.Moves.{move-Kept}
use build_system.Runner.Worker.Started.{Started, op-Started, sweep-Started}
use build_system.Runner.Worker.Doomed.{
  gives_back, IsDoomed, register-Doomed, claim-Doomed, open-Doomed, outside-Doomed, print-Doomed,
  close-Doomed, hand_back-Doomed, explain-Doomed, record-Doomed, break-Doomed, leave-Doomed,
  cause-Doomed, cancel-Doomed,
}

claimed-Started :
    (now : ℕ) (agent : String) (b : Build)
    → Started b
    → Started (after b (claim_for_agent now agent b))
unfolding claim_for_agent
claimed-Started now agent b h = ground (arith, h)

move-Doomed : (m : Move) (w : World) → IsOwned w → IsDoomed w → IsDoomed (move m w)
unfolding move stop expire set_step is_current claim_unfit drop_unfit finish_build
move-Doomed (registers id) w o h = register-Doomed w.phase id w h
move-Doomed (tries_claim now a) w o h = claim-Doomed w.phase now a w h
move-Doomed opens w o h = open-Doomed w.phase w refl h
move-Doomed (prints bytes) w o h = print-Doomed w.phase bytes w h
move-Doomed (closes ok) w o h = close-Doomed w.phase ok w refl h
move-Doomed (hands_back a) w o h = hand_back-Doomed w.phase a w refl h
move-Doomed (explains note) w o h = explain-Doomed w.phase note w refl h
move-Doomed (records now) w o h = record-Doomed w.phase now w refl o h
move-Doomed breaks w o h = break-Doomed w.phase w h
move-Doomed leaves w o h = leave-Doomed w.phase w h
move-Doomed times_out w o h = cause-Doomed timed_out w w.runner.stopped h
move-Doomed shuts_down w o h = cause-Doomed shut_down w true h
move-Doomed (enters step) w o h = record { started = h.started; blamed = h.blamed }
move-Doomed (user_cancels id) w o h = cancel-Doomed id w h
move-Doomed (janitor_sweeps floor now note) w o h =
    outside-Doomed w (after w.build (sweep_stale floor now note w.runner w.build)) h
      (move-Kept (janitor_sweeps floor now note) w o).same_id
      (sweep-Started floor now note w.runner w.build h.started)
move-Doomed (others op foreign) w o h =
    outside-Doomed w (after w.build (run_op op w.build)) h
      (move-Kept (others op foreign) w o).same_id (op-Started op w.build foreign h.started)
move-Doomed (claims_unfit now agent named) w o h =
    outside-Doomed (record w { unfit = (claim_unfit now agent w).unfit })
      (after w.build (claim_for_agent now agent w.build))
      (record { started = h.started; blamed = h.blamed })
      (move-Kept (claims_unfit now agent named) w o).same_id
      (claimed-Started now agent w.build h.started)
move-Doomed (drops_unfit now) w o h =
    if_rule IsDoomed w.unfit _ _
      (λ e.
        outside-Doomed (record w { unfit = false })
          (after w.build (finish_build now failed w.build))
          (record { started = h.started; blamed = h.blamed }) refl refl)
      λ e. h

run_moves-Doomed : (ms : List Move) (w : World) → IsOwned w → IsDoomed w → IsDoomed (run_moves ms w)
unfolding run_moves
run_moves-Doomed [] w o h = h
run_moves-Doomed (m ∷ ms) w o h =
    run_moves-Doomed ms (move m w) (move-Kept m w o).owned (move-Doomed m w o h)

ready : (p : Phase) → (p ≡ starting) ⊎ (p ≡ executing) → (holds p ≡ true) × (gives_back p ≡ false)
ready p (inl e) = (ap holds e, ap gives_back e)
ready p (inr e) = (ap holds e, ap gives_back e)

hit-Doomed :
    (w : World)
    → IsOwned w
    → (cancel w.build.id w.runner).1 ≡ true
    → (w.phase ≡ starting) ⊎ (w.phase ≡ executing)
    → w.runner.cause ≡ none
    → IsDoomed (move (user_cancels w.build.id) w)
unfolding move is_current cancel
hit-Doomed w o hit phase open_cause =
    let (live, back) = ready w.phase phase in
    if_rule (λ (x : Runner × Bool). x.1 ≡ true → IsDoomed (record w { runner = x.0 }))
      (w.runner.current_id == w.build.id && w.runner.cancel_current) _ _
      (λ e k.
        let held = o.held (ground (arith, e)) live in
        record {
          started = ground (arith, held);
          blamed = λ mine l. (ap (with_cause by_user) open_cause, back);
        })
      (λ e k. absurd (cc k)) hit

-- If Cancel reports that the worker has the build, while its commands run and its context has no other
-- cause, then whatever moves of the same process follow, in any order, a shutdown's requeue included, the
-- build is not queued again. What the next start of the server does with a row that is left running is
-- not one of these moves.
pub cancel_sticks :
    (ms : List Move) (w : World)
    → IsOwned w
    → (cancel w.build.id w.runner).1 ≡ true
    → (w.phase ≡ starting) ⊎ (w.phase ≡ executing)
    → w.runner.cause ≡ none
    → (run_moves (user_cancels w.build.id ∷ ms) w).build.status ≢ pending
unfolding run_moves
cancel_sticks ms w o hit phase open_cause e =
    let asked = move (user_cancels w.build.id) w in
    let last =
      run_moves-Doomed ms asked (move-Kept (user_cancels w.build.id) w o).owned
        (hit-Doomed w o hit phase open_cause) in
    absurd (cc (e, last.started))
