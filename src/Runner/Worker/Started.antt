-- ===== src/Runner/Worker/Started.antt =====
-- The rows that are not queued, under the worker's statements and those of others.
use build_system.Prelude.{ℕ, ◌≡◌, refl, true, false, ◌&&◌, List, ◌==◌, if_rule, arith}
use build_system.Prelude.Text.{str_eq}
use build_system.Models.Status.{pending}
use build_system.Db.BuildLog.{state_of}
use build_system.Db.Builds.{
  Build, Change, skip, is, claim_build, fail_stale, gives_up, requeue_build_with_note,
  claim_for_agent, heartbeat_build, request_agent_cancel, cancel_pending_build, finish_agent_build,
  fail_pending_build, append_agent_build_log,
}
use build_system.Models.Status.{running}
use build_system.Db.Builds.Lifecycle.{
  Op, claims, claims_for, beats, asks_cancel, cancels, finishes, fails_pending, requeues, uploads,
  sweeps, run_op,
}
use build_system.Db.Builds.Runs.{after}
use build_system.Runner.Registry.{Runner, sweep_stale}
use build_system.Runner.Worker.{World, is_current, on_current, is_foreign}
use build_system.Runner.Worker.Owned.{with_note-after}

abbrev pub Started : Build → Type 0
Started b = is pending b ≡ false

pub op-Started :
    (o : Op) (b : Build) → is_foreign o ≡ true → Started b → Started (after b (run_op o b))
unfolding run_op claim_build claim_for_agent heartbeat_build request_agent_cancel
    cancel_pending_build finish_agent_build fail_pending_build requeue_build_with_note
    append_agent_build_log fail_stale
op-Started (claims now) b f h = absurd (cc f)
op-Started (claims_for now agent) b f h = ground (arith, h)
op-Started (beats now agent) b f h = ground (arith, h)
op-Started asks_cancel b f h = ground (arith, h)
op-Started (cancels now) b f h = ground (arith, h)
op-Started (finishes now agent s final) b f h = ground (arith, h, final)
op-Started (fails_pending now note) b f h = ground (arith, h)
op-Started requeues b f h = absurd (cc f)
op-Started (uploads now agent expected bytes) b f h =
    if_rule (λ c. Started (after b c))
      (is running b && str_eq b.agent agent && (state_of b.log).total_bytes == expected) _ _
      (λ e. with_note-after Started b _ _ h (λ l. h)) λ e. h
op-Started (sweeps floor now note) b f h = absurd (cc f)

pub sweep-Started :
    (floor now : ℕ) (note : List ℕ) (r : Runner) (b : Build)
    → Started b
    → Started (after b (sweep_stale floor now note r b))
unfolding sweep_stale fail_stale
sweep-Started floor now note r b h =
    if_rule (λ c. Started (after b c)) (b.id == r.current_id) _ _ (λ e. h)
      λ e.
        if_rule (λ c. Started (after b c)) (is running b && gives_up floor now b) _ _
          (λ e'. with_note-after Started b _ _ h (λ l. refl)) λ e'. h

-- A row that an append leaves where it is.
pub on_current-Started :
    (w : World) (op : Build → Change)
    → Started w.build
    → (is_current w ≡ true → Started (after w.build (op w.build)))
    → Started (on_current w op)
unfolding on_current is_current
on_current-Started w op h k =
    if_rule Started (w.build.id == w.runner.current_id) _ _ (λ e. k e) λ e. h

pub on_current-id :
    (w : World) (op : Build → Change)
    → (after w.build (op w.build)).id ≡ w.build.id
    → (on_current w op).id ≡ w.build.id
unfolding on_current is_current
on_current-id w op e =
    if_rule (λ (b : Build). b.id ≡ w.build.id) (w.build.id == w.runner.current_id) _ _ (λ k. e)
      λ k. refl

-- A started row is not claimed.
pub claim-skips : (now : ℕ) (b : Build) → Started b → claim_build now b ≡ skip
unfolding claim_build
claim-skips now b h = ground (arith, h)
