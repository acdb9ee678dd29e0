-- ===== src/Runner/Worker/Moves.antt =====
-- What each move keeps of the row and of the worker's hold on it.
use build_system.Prelude.{
  ℕ, ◌≡◌, ◌∙◌, ap, sym, subst, refl, String, Bool, true, not, arith, ◌&&◌, List, ◌==◌, if_rule,
  if◌then◌else◌,
}
use build_system.Prelude.Text.{str_eq}
use build_system.Models.Status.{failed}
use build_system.Db.Builds.{
  Build, Change, skip, with_note, claim_build, claim_for_agent, finish_build, fail_stale,
  requeue_build_with_note, max_build_requeues,
}
use build_system.Db.Builds.Lifecycle.{claims_for, sweeps, run_op, IsSound}
use build_system.Db.Builds.Runs.{after}
use build_system.Db.Builds.Extends.{Extends-refl}
use build_system.Runner.Registry.{
  Cause, by_user, shut_down, timed_out, Runner, with_cause, cancel, set_step, stop, expire,
  register, unregister, sweep_stale,
}
use build_system.Runner.Worker.{
  Phase, idle, registered, starting, executing, requeuing, giving_up, leaving, ending, World,
  Answer, verdict, is_current, on_current, answered, claimed, handed_back, claim_at, open_at,
  print_at, close_at, hand_back_at, explain_at, record_at, break_at, leave_at, register_at, Move,
  registers, tries_claim, prints, closes, hands_back, explains, records, opens, breaks, leaves,
  times_out, shuts_down, enters, user_cancels, janitor_sweeps, others, claims_unfit, drops_unfit,
  claim_unfit, drop_unfit, move,
}
use build_system.Runner.Worker.Owned.{
  holds, is_due, Waits, IsHeld, IsOwned, Rests, Rests-refl, run_op-Rests, foreign_skips,
}
use build_system.Runner.Worker.Rows.{
  claim-Rests, claim-IsHeld, hand_back-Rests, hand_back-refused, print-Rests, finish-Rests,
}
use build_system.Runner.Worker.Turns.{
  Kept, Rests-Kept, same-Kept, on_current-Kept, answered-current, holds-claimed, due-claimed,
  holds-handed_back, due-handed_back, due-verdict, due-with_cause, due-terminal,
}

Kept-refl : (w : World) → IsOwned w → Kept w w
Kept-refl w h = Rests-Kept w w h refl (Rests-refl w.build h.sound h.waiting)

register-Kept : (p : Phase) (id : ℕ) (w : World) → IsOwned w → Kept w (register_at p id w)
unfolding register
register-Kept idle id w h = same-Kept w _ registered h (λ k live. absurd (cc live)) refl
register-Kept _ id w h = Kept-refl w h

claim-Kept :
    (p : Phase) (now : ℕ) (a : Answer) (w : World) → IsOwned w → Kept w (claim_at p now a w)
claim-Kept registered now a w h =
    on_current-Kept w (claim_build now) (claimed (answered w (claim_build now) a)) h
      (due-claimed (answered w (claim_build now) a) w.runner.cause)
      λ e. (
        claim-Rests now w.build h.sound h.waiting,
        λ live. claim-IsHeld now w.build h.waiting (
            sym (answered-current w (claim_build now) a e)
            ∙ holds-claimed (answered w (claim_build now) a) live),
      )
claim-Kept _ now a w h = Kept-refl w h

open-Kept : (p : Phase) (w : World) → w.phase ≡ p → IsOwned w → Kept w (open_at p w)
unfolding is_current
open-Kept starting w e h = same-Kept w w.runner executing h (λ k live. h.held k (ap holds e)) refl
open-Kept _ w e h = Kept-refl w h

flushed-Kept :
    (bytes : List ℕ) (w : World)
    → holds w.phase ≡ true
    → IsOwned w
    → Kept w (record w { build = on_current w (with_note bytes) })
flushed-Kept bytes w live h =
    on_current-Kept w (with_note bytes) w.phase h h.due
      λ k. let (r, held) = print-Rests bytes w.build h.sound (h.held k live) in (r, λ live'. held)

print-Kept :
    (p : Phase) (bytes : List ℕ) (w : World) → w.phase ≡ p → IsOwned w → Kept w (print_at p bytes w)
print-Kept executing bytes w e h = flushed-Kept bytes w (ap holds e) h
print-Kept requeuing bytes w e h = flushed-Kept bytes w (ap holds e) h
print-Kept (ending s) bytes w e h = flushed-Kept bytes w (ap holds e) h
print-Kept _ bytes w e h = Kept-refl w h

close-Kept :
    (p : Phase) (ok : Bool) (w : World) → w.phase ≡ p → IsOwned w → Kept w (close_at p ok w)
unfolding is_current
close-Kept executing ok w e h =
    same-Kept w w.runner (verdict ok w.runner.cause) h (λ k live. h.held k (ap holds e))
      (due-verdict ok w.runner.cause)
close-Kept _ ok w e h = Kept-refl w h

hand_back-Kept :
    (p : Phase) (a : Answer) (w : World) → w.phase ≡ p → IsOwned w → Kept w (hand_back_at p a w)
hand_back-Kept requeuing a w e h =
    let op = requeue_build_with_note max_build_requeues in
    on_current-Kept w op (handed_back (answered w op a)) h
      (due-handed_back (answered w op a) w.runner.cause)
      λ k. (
        hand_back-Rests w.build h.sound h.waiting,
        λ live.
            subst IsHeld
              (sym (
                hand_back-refused w.build
                  (sym (answered-current w op a k) ∙ holds-handed_back (answered w op a) live)))
              (h.held k (ap holds e)),
      )
hand_back-Kept _ a w e h = Kept-refl w h

noted-Kept :
    (note : List ℕ) (w : World)
    → holds w.phase ≡ true
    → IsOwned w
    → Kept w (record w { build = on_current w (with_note note); phase = ending failed })
noted-Kept note w live h =
    on_current-Kept w (with_note note) (ending failed) h refl
      λ k. let (r, held) = print-Rests note w.build h.sound (h.held k live) in (r, λ live'. held)

explain-Kept :
    (p : Phase) (note : List ℕ) (w : World) → w.phase ≡ p → IsOwned w → Kept w (explain_at p note w)
explain-Kept giving_up note w e h = noted-Kept note w (ap holds e) h
explain-Kept starting note w e h = noted-Kept note w (ap holds e) h
explain-Kept _ note w e h = Kept-refl w h

record-Kept :
    (p : Phase) (now : ℕ) (w : World) → w.phase ≡ p → IsOwned w → Kept w (record_at p now w)
record-Kept (ending s) now w e h = on_current-Kept w (finish_build now s) leaving h refl λ k. (
  finish-Rests now s w.build h.sound
      (due-terminal s w.runner.cause (subst (λ q. is_due q w.runner.cause ≡ true) e h.due))
      (h.held k (ap holds e)),
  λ live. absurd (cc live),
)
record-Kept _ now w e h = Kept-refl w h

break-Kept : (p : Phase) (w : World) → IsOwned w → Kept w (break_at p w)
break-Kept idle w h = Kept-refl w h
break-Kept _ w h = same-Kept w w.runner leaving h (λ k live. absurd (cc live)) refl

leave-Kept : (p : Phase) (w : World) → IsOwned w → Kept w (leave_at p w)
unfolding unregister
leave-Kept leaving w h = same-Kept w (unregister w.runner) idle h (λ k live. absurd (cc live)) refl
leave-Kept _ w h = Kept-refl w h

-- A new cause, or none.
pub cause-Kept :
    (c : Cause) (w : World) (stopped : Bool)
    → IsOwned w
    → Kept w (record w {
      runner = record w.runner { cause = with_cause c w.runner.cause; stopped = stopped };
    })
unfolding is_current
cause-Kept c w stopped h =
    same-Kept w (record w.runner { cause = with_cause c w.runner.cause; stopped = stopped }) w.phase
      h h.held (due-with_cause w.phase c w.runner.cause h.due)

cancel-Kept :
    (id : ℕ) (w : World) → IsOwned w → Kept w (record w { runner = (cancel id w.runner).0 })
unfolding cancel
cancel-Kept id w h =
    if_rule (λ (x : Runner × Bool). Kept w (record w { runner = x.0 }))
      (w.runner.current_id == id && w.runner.cancel_current) _ _
      (λ e. cause-Kept by_user w w.runner.stopped h) λ e. Kept-refl w h

-- A statement that is not the worker's: what it does to a held row, if anything, is not done while the
-- worker holds it.
outside-Kept :
    (w : World) (c : Change)
    → IsOwned w
    → Rests w.build (after w.build c)
    → (is_current w ≡ true → holds w.phase ≡ true → IsHeld (after w.build c))
    → Kept w (record w { build = after w.build c })
unfolding is_current
outside-Kept w c h r held =
    Rests-Kept w (record w { build = after w.build c })
      (record {
        sound = r.extends.sound;
        waiting = r.waiting;
        held = λ k live. held (subst (λ id. id == w.runner.current_id ≡ true) r.same_id k) live;
        due = h.due;
        remote = λ k. r.away (h.remote k);
      })
      refl r

sweep-Rests :
    (floor now : ℕ) (note : List ℕ) (r : Runner) (b : Build)
    → IsSound b
    → Waits b
    → Rests b (after b (sweep_stale floor now note r b))
unfolding sweep_stale run_op
sweep-Rests floor now note r b h k =
    if_rule (λ c. Rests b (after b c)) (b.id == r.current_id) _ _ (λ e. Rests-refl b h k)
      λ e. run_op-Rests (sweeps floor now note) b h k

-- The janitor leaves the worker's build alone.
pub sweep-current :
    (floor now : ℕ) (note : List ℕ) (w : World)
    → is_current w ≡ true
    → after w.build (sweep_stale floor now note w.runner w.build) ≡ w.build
unfolding sweep_stale is_current
sweep-current floor now note w e =
    ap (λ t. after w.build (if t then skip else fail_stale floor now note w.build)) e

-- A row that a claim for an agent takes is not the worker's; a decided one is not taken.
claim_unfit-Kept :
    (now : ℕ) (agent : String) (w : World)
    → not (str_eq agent "") ≡ true
    → IsOwned w
    → Kept w (claim_unfit now agent w)
unfolding claim_unfit claim_for_agent run_op is_current
claim_unfit-Kept now agent w f h =
    let r = run_op-Rests (claims_for now agent) w.build h.sound h.waiting in
    record {
      owned = record {
        sound = r.extends.sound;
        waiting = r.waiting;
        held = λ k live.
            let mine = h.held (subst (λ id. id == w.runner.current_id ≡ true) r.same_id k) live in
            subst IsHeld
              (sym (ap (after w.build) (foreign_skips (claims_for now agent) w.build f mine))) mine;
        due = h.due;
        remote = λ k. ground (arith, k, h.remote, f);
      };
      extends = r.extends;
      same_id = r.same_id;
      frozen = λ e k. (r.frozen e, ground (arith, e, k));
    }

-- The claim handler fails an agent's row, which is not the worker's.
drop_unfit-Kept : (now : ℕ) (w : World) → IsOwned w → Kept w (drop_unfit now w)
unfolding drop_unfit finish_build is_current
drop_unfit-Kept now w h =
    if_rule (Kept w) w.unfit _ _
      (λ e. record {
        owned = record {
          sound = record {
            stored = h.sound.stored;
            bounded = h.sound.bounded;
            waiting = λ k. absurd (cc k);
            working = λ k. absurd (cc k);
          };
          waiting = λ k. absurd (cc k);
          held = λ k live. absurd (ground (arith, h.held k live, h.remote e));
          due = h.due;
          remote = λ k. absurd (cc k);
        };
        extends = record {
          sound = record {
            stored = h.sound.stored;
            bounded = h.sound.bounded;
            waiting = λ k. absurd (cc k);
            working = λ k. absurd (cc k);
          };
          grown = (Extends-refl w.build h.sound).grown;
        };
        same_id = refl;
        frozen = λ k k'. absurd (cc (e, k'));
      })
      λ e. Kept-refl w h

-- Every move keeps the worker's hold.
pub move-Kept : (m : Move) (w : World) → IsOwned w → Kept w (move m w)
unfolding move stop expire set_step is_current
move-Kept (registers id) w h = register-Kept w.phase id w h
move-Kept (tries_claim now a) w h = claim-Kept w.phase now a w h
move-Kept opens w h = open-Kept w.phase w refl h
move-Kept (prints bytes) w h = print-Kept w.phase bytes w refl h
move-Kept (closes ok) w h = close-Kept w.phase ok w refl h
move-Kept (hands_back a) w h = hand_back-Kept w.phase a w refl h
move-Kept (explains note) w h = explain-Kept w.phase note w refl h
move-Kept (records now) w h = record-Kept w.phase now w refl h
move-Kept breaks w h = break-Kept w.phase w h
move-Kept leaves w h = leave-Kept w.phase w h
move-Kept times_out w h = cause-Kept timed_out w w.runner.stopped h
move-Kept shuts_down w h = cause-Kept shut_down w true h
move-Kept (enters step) w h = same-Kept w (set_step step w.runner) w.phase h h.held h.due
move-Kept (user_cancels id) w h = cancel-Kept id w h
move-Kept (janitor_sweeps floor now note) w h =
    outside-Kept w (sweep_stale floor now note w.runner w.build) h
      (sweep-Rests floor now note w.runner w.build h.sound h.waiting)
      λ k live. subst IsHeld (sym (sweep-current floor now note w k)) (h.held k live)
move-Kept (others o foreign) w h =
    outside-Kept w (run_op o w.build) h (run_op-Rests o w.build h.sound h.waiting) λ k live.
      subst IsHeld (sym (ap (after w.build) (foreign_skips o w.build foreign (h.held k live))))
        (h.held k live)
move-Kept (claims_unfit now agent named) w h = claim_unfit-Kept now agent w named h
move-Kept (drops_unfit now) w h = drop_unfit-Kept now w h
