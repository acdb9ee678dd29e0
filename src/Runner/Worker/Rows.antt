-- ===== src/Runner/Worker/Rows.antt =====
-- What each statement of the worker does to the row of the build that it holds.
use build_system.Prelude.{ℕ, ◌≡◌, refl, true, ◌&&◌, List, Option, none, some, ltb, if_rule, arith}
use build_system.Models.Status.{BuildStatus, terminal}
use build_system.Db.BuildLog.{BuildLog, append_build_log}
use build_system.Db.Builds.{
  Build, is, is_local, logged, with_note, claim_build, finish_build, requeue_build_with_note,
  requeued, max_build_requeues, requeue_note,
}
use build_system.Models.Status.{running}
use build_system.Db.Builds.Lifecycle.{claims, requeues, run_op, IsSound, noted-Ensures, stays}
use build_system.Db.Builds.Runs.{after}
use build_system.Db.Builds.Extends.{Extends-refl}
use build_system.Runner.Worker.{done, refused, answer_of}
use build_system.Runner.Worker.Owned.{
  Waits, IsHeld, Rests, run_op-Rests, with_note-after, after-same_id, after-Extends,
}

pub claim-Rests :
    (now : ℕ) (b : Build) → IsSound b → Waits b → Rests b (after b (claim_build now b))
unfolding run_op
claim-Rests now b h k = run_op-Rests (claims now) b h k

pub claim-IsHeld :
    (now : ℕ) (b : Build)
    → Waits b
    → answer_of (claim_build now b) ≡ done
    → IsHeld (after b (claim_build now b))
unfolding claim_build
claim-IsHeld now b h e = ground (arith, h, e)

logged-answer : (b : Build) (o : Option (BuildLog × ℕ)) → answer_of (logged o b) ≡ refused → ⊥
unfolding logged
logged-answer b none e = absurd (cc e)
logged-answer b (some (l, start)) e = absurd (cc e)

pub hand_back-Rests :
    (b : Build)
    → IsSound b
    → Waits b
    → Rests b (after b (requeue_build_with_note max_build_requeues b))
unfolding run_op
hand_back-Rests b h k = run_op-Rests requeues b h k

pub hand_back-refused :
    (b : Build)
    → answer_of (requeue_build_with_note max_build_requeues b) ≡ refused
    → after b (requeue_build_with_note max_build_requeues b) ≡ b
unfolding requeue_build_with_note with_note
hand_back-refused b =
    if_rule (λ c. answer_of c ≡ refused → after b c ≡ b)
      (is running b && ltb b.requeues max_build_requeues && is_local b) _ _
      (λ e k.
        absurd (logged-answer (requeued b) (append_build_log (requeued b).log requeue_note) k))
      λ e k. refl

pub print-Rests :
    (bytes : List ℕ) (b : Build)
    → IsSound b
    → IsHeld b
    → Rests b (after b (with_note bytes b)) × IsHeld (after b (with_note bytes b))
print-Rests bytes b h k =
    let f =
      noted-Ensures b b bytes h (h.bounded, h.waiting, h.working) (refl, refl, refl) stays refl in
    (
      record {
        extends = after-Extends b _ h f;
        waiting =
            with_note-after Waits b b bytes (λ e. ground (arith, e, k))
              (λ l e. ground (arith, e, k));
        same_id = after-same_id b _ f;
        away = λ e. absurd (ground (arith, e, k));
        frozen = λ e. ground (arith, e, k);
      },
      with_note-after IsHeld b b bytes k (λ l. k),
    )

pub finish-Rests :
    (now : ℕ) (s : BuildStatus) (b : Build)
    → IsSound b
    → terminal s ≡ true
    → IsHeld b
    → Rests b (after b (finish_build now s b))
unfolding finish_build
finish-Rests now s b h final k = record {
  extends = record {
    sound = record {
      stored = h.stored;
      bounded = h.bounded;
      waiting = λ e. absurd (cc (e, final));
      working = λ e. absurd (cc (e, final));
    };
    grown = (Extends-refl b h).grown;
  };
  waiting = λ e. ground (arith, e, final);
  same_id = refl;
  away = λ e. e;
  frozen = λ e. ground (arith, e, k);
}
