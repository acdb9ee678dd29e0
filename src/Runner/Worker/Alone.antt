-- ===== src/Runner/Worker/Alone.antt =====
-- The worker's hold on its build, and the statements of others.
use build_system.Prelude.{ℕ, ◌≡◌, true, false, List, Bool-cases, inl, inr, arith}
use build_system.Db.Builds.{skip}
use build_system.Db.Builds.Lifecycle.{Op, run_op}
use build_system.Db.Builds.Runs.{after}
use build_system.Runner.Registry.{sweep_stale}
use build_system.Runner.Worker.{World, Move, is_current, is_foreign, run_moves}
use build_system.Runner.Worker.Owned.{holds, IsHeld, IsOwned, foreign_skips}
use build_system.Runner.Worker.Moves.{sweep-current}
use build_system.Runner.Worker.Runs.{Runs, run_moves-Runs}

-- What holds of a build that the worker has and has claimed, after any moves.
pub record IsAlone (w w' : World) : Type 0 where
  pub runs : Runs w w'
  pub held : is_current w' ≡ true → holds w'.phase ≡ true → IsHeld w'.build
  pub skipped :
      (o : Op)
      → is_foreign o ≡ true
      → is_current w' ≡ true
      → holds w'.phase ≡ true
      → run_op o w'.build ≡ skip
  pub kept_fit : is_current w' ≡ true → holds w'.phase ≡ true → w'.unfit ≡ false
  pub spared :
      (floor now : ℕ) (note : List ℕ)
      → is_current w' ≡ true
      → after w'.build (sweep_stale floor now note w'.runner w'.build) ≡ w'.build

-- Whatever the worker, the users who cancel, the janitor, a shutdown and the requests of agents do, in
-- any order: a build that the worker has claimed and not yet decided is running and no agent's, and
-- neither a sweep, nor any other request, nor a claim handler that fails what it cannot hand out, writes
-- its row; the row stays sound and its log grows at the end only; and a build that is decided, while no
-- claim handler is about to fail it, is left as it is, although the worker's last write has no condition.
pub run_moves-IsAlone : (ms : List Move) (w : World) → IsOwned w → IsAlone w (run_moves ms w)
run_moves-IsAlone ms w h =
    let r = run_moves-Runs ms w h in
    record {
      runs = r;
      held = r.owned.held;
      skipped = λ o f k live. foreign_skips o (run_moves ms w).build f (r.owned.held k live);
      kept_fit = λ k live. elim (Bool-cases (run_moves ms w).unfit) [
        | inl e ↦ absurd (ground (arith, r.owned.held k live, r.owned.remote e))
        | inr e ↦ e
      ];
      spared = λ floor now note k. sweep-current floor now note (run_moves ms w) k;
    }
