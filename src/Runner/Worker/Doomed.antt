-- ===== src/Runner/Worker/Doomed.antt =====
-- A build that a user canceled while the worker had it: what each move keeps.
use build_system.Prelude.{
  ℕ, ◌≡◌, ◌∙◌, ap, sym, subst, refl, Bool, true, false, ◌&&◌, List, Option, some, ◌==◌, if_rule,
  arith,
}
use build_system.Models.Status.{BuildStatus, failed, terminal}
use build_system.Db.Builds.{
  Build, with_note, claim_build, finish_build, requeue_build_with_note, max_build_requeues,
}
use build_system.Db.Builds.Runs.{after}
use build_system.Runner.Registry.{Cause, by_user, Runner, with_cause, cancel}
use build_system.Runner.Worker.{
  Phase, idle, registered, starting, executing, requeuing, giving_up, leaving, ending, World,
  Answer, answer_of, verdict, is_current, on_current, answered, claimed, handed_back, claim_at,
  open_at, print_at, close_at, hand_back_at, explain_at, record_at, break_at, leave_at, register_at,
}
use build_system.Runner.Worker.Owned.{holds, is_due, IsOwned, with_note-after}
use build_system.Runner.Worker.Turns.{due-terminal, holds-claimed, answered-current}
use build_system.Runner.Worker.Started.{Started, on_current-Started, on_current-id, claim-skips}

abbrev pub gives_back : Phase → Bool
gives_back requeuing = true
gives_back _ = false

abbrev pub IsBlamed : World → Type 0
IsBlamed w =
    is_current w ≡ true
    → holds w.phase ≡ true
    → (w.runner.cause ≡ some by_user) × (gives_back w.phase ≡ false)

-- The build is not queued, and if the worker has it, the user is the cause of its end.
pub record IsDoomed (w : World) : Type 0 where
  pub started : Started w.build
  pub blamed : IsBlamed w

-- A phase that holds no build.
pub free-Doomed :
    (b : Build) (r : Runner) (p : Phase) (unfit : Bool)
    → Started b
    → holds p ≡ false
    → IsDoomed (record { build = b; runner = r; phase = p; unfit = unfit })
free-Doomed b r p unfit h e = record { started = h; blamed = λ k live. absurd (cc (live, e)) }

-- A move that keeps the row's id and the registry, from one phase that holds a build to another.
pub next-Doomed :
    (w : World) (b : Build) (p : Phase)
    → IsDoomed w
    → holds w.phase ≡ true
    → gives_back p ≡ false
    → b.id ≡ w.build.id
    → Started b
    → IsDoomed (record w { build = b; phase = p })
unfolding is_current
next-Doomed w b p h live back same started = record {
  started = started;
  blamed = λ k e. ((h.blamed (subst (λ id. id == w.runner.current_id ≡ true) same k) live).0, back);
}

same_current :
    (w : World) (b : Build) (p : Phase)
    → b.id ≡ w.build.id
    → is_current (record w { build = b; phase = p }) ≡ true
    → is_current w ≡ true
unfolding is_current
same_current w b p same k = subst (λ id. id == w.runner.current_id ≡ true) same k

pub register-Doomed : (p : Phase) (id : ℕ) (w : World) → IsDoomed w → IsDoomed (register_at p id w)
register-Doomed idle id w h = free-Doomed w.build _ registered w.unfit h.started refl
register-Doomed _ id w h = h

pub claim-Doomed :
    (p : Phase) (now : ℕ) (a : Answer) (w : World) → IsDoomed w → IsDoomed (claim_at p now a w)
claim-Doomed registered now a w h =
    let op = claim_build now in
    let skips = claim-skips now w.build h.started in
    let same : after w.build (op w.build) ≡ w.build = ap (after w.build) skips in
    record {
      started = on_current-Started w op h.started (λ e. subst Started (sym same) h.started);
      blamed = λ k live.
          let mine =
            same_current w (on_current w op) (claimed (answered w op a))
              (on_current-id w op (ap (λ (b : Build). b.id) same)) k in
          absurd (
            cc (
              holds-claimed (answered w op a) live,
              answered-current w op a mine,
              ap answer_of skips,
            ));
    }
claim-Doomed _ now a w h = h

pub open-Doomed : (p : Phase) (w : World) → w.phase ≡ p → IsDoomed w → IsDoomed (open_at p w)
open-Doomed starting w e h = next-Doomed w w.build executing h (ap holds e) refl refl h.started
open-Doomed _ w e h = h

pub outside-Doomed :
    (w : World) (b : Build)
    → IsDoomed w
    → b.id ≡ w.build.id
    → Started b
    → IsDoomed (record w { build = b })
unfolding is_current
outside-Doomed w b h same started = record {
  started = started;
  blamed = λ k live. h.blamed (subst (λ id. id == w.runner.current_id ≡ true) same k) live;
}

pub noted-Doomed :
    (note : List ℕ) (w : World) (p : Phase)
    → IsDoomed w
    → holds w.phase ≡ true
    → gives_back p ≡ false
    → IsDoomed (record w { build = on_current w (with_note note); phase = p })
noted-Doomed note w p h live back =
    next-Doomed w (on_current w (with_note note)) p h live back
      (on_current-id w (with_note note)
        (with_note-after (λ (b : Build). b.id ≡ w.build.id) w.build w.build note refl (λ l. refl)))
      (on_current-Started w (with_note note) h.started
        (λ e. with_note-after Started w.build w.build note h.started (λ l. h.started)))

pub flushed-Doomed :
    (bytes : List ℕ) (w : World)
    → IsDoomed w
    → IsDoomed (record w { build = on_current w (with_note bytes) })
flushed-Doomed bytes w h =
    outside-Doomed w (on_current w (with_note bytes)) h
      (on_current-id w (with_note bytes)
        (with_note-after (λ (b : Build). b.id ≡ w.build.id) w.build w.build bytes refl (λ l. refl)))
      (on_current-Started w (with_note bytes) h.started
        (λ e. with_note-after Started w.build w.build bytes h.started (λ l. h.started)))

pub print-Doomed :
    (p : Phase) (bytes : List ℕ) (w : World) → IsDoomed w → IsDoomed (print_at p bytes w)
print-Doomed executing bytes w h = flushed-Doomed bytes w h
print-Doomed requeuing bytes w h = flushed-Doomed bytes w h
print-Doomed (ending s) bytes w h = flushed-Doomed bytes w h
print-Doomed _ bytes w h = h

verdict-blamed :
    (ok : Bool) (c : Option Cause) → c ≡ some by_user → gives_back (verdict ok c) ≡ false
verdict-blamed ok c e = ap (λ x. gives_back (verdict ok x)) e ∙ go ok
  where
    go : (ok : Bool) → gives_back (verdict ok (some by_user)) ≡ false
    go true = refl
    go false = refl

pub close-Doomed :
    (p : Phase) (ok : Bool) (w : World) → w.phase ≡ p → IsDoomed w → IsDoomed (close_at p ok w)
unfolding is_current
close-Doomed executing ok w e h = record {
  started = h.started;
  blamed = λ k live.
      let cause = (h.blamed k (ap holds e)).0 in (cause, verdict-blamed ok w.runner.cause cause);
}
close-Doomed _ ok w e h = h

-- Only a build that is not the worker's is handed back.
pub hand_back-Doomed :
    (p : Phase) (a : Answer) (w : World) → w.phase ≡ p → IsDoomed w → IsDoomed (hand_back_at p a w)
unfolding on_current is_current
hand_back-Doomed requeuing a w e h =
    let op = requeue_build_with_note max_build_requeues in
    if_rule (λ b. IsDoomed (record w { build = b; phase = handed_back (answered w op a) }))
      (w.build.id == w.runner.current_id) _ _
      (λ k. absurd (cc ((h.blamed k (ap holds e)).1, ap gives_back e)))
      λ k. record { started = h.started; blamed = λ k'. absurd (cc (k, k')) }
hand_back-Doomed _ a w e h = h

pub explain-Doomed :
    (p : Phase) (note : List ℕ) (w : World)
    → w.phase ≡ p
    → IsDoomed w
    → IsDoomed (explain_at p note w)
explain-Doomed giving_up note w e h = noted-Doomed note w (ending failed) h (ap holds e) refl
explain-Doomed starting note w e h = noted-Doomed note w (ending failed) h (ap holds e) refl
explain-Doomed _ note w e h = h

terminal-Started : (s : BuildStatus) (b : Build) → b.status ≡ s → terminal s ≡ true → Started b
terminal-Started s b e final = ground (arith, ap terminal e, final)

pub record-Doomed :
    (p : Phase) (now : ℕ) (w : World)
    → w.phase ≡ p
    → IsOwned w
    → IsDoomed w
    → IsDoomed (record_at p now w)
unfolding finish_build
record-Doomed (ending s) now w e o h =
    free-Doomed (on_current w (finish_build now s)) w.runner leaving w.unfit
      (on_current-Started w (finish_build now s) h.started (λ k.
        terminal-Started s (after w.build (finish_build now s w.build)) refl
          (due-terminal s w.runner.cause (subst (λ q. is_due q w.runner.cause ≡ true) e o.due))))
      refl
record-Doomed _ now w e o h = h

pub break-Doomed : (p : Phase) (w : World) → IsDoomed w → IsDoomed (break_at p w)
break-Doomed idle w h = h
break-Doomed _ w h = free-Doomed w.build w.runner leaving w.unfit h.started refl

pub leave-Doomed : (p : Phase) (w : World) → IsDoomed w → IsDoomed (leave_at p w)
leave-Doomed leaving w h = free-Doomed w.build _ idle w.unfit h.started refl
leave-Doomed _ w h = h

-- The first cause stands.
pub cause-Doomed :
    (c : Cause) (w : World) (stopped : Bool)
    → IsDoomed w
    → IsDoomed (record w {
      runner = record w.runner { cause = with_cause c w.runner.cause; stopped = stopped };
    })
unfolding is_current
cause-Doomed c w stopped h = record {
  started = h.started;
  blamed = λ k live. let (cause, back) = h.blamed k live in (ap (with_cause c) cause, back);
}

pub cancel-Doomed :
    (id : ℕ) (w : World) → IsDoomed w → IsDoomed (record w { runner = (cancel id w.runner).0 })
unfolding cancel
cancel-Doomed id w h =
    if_rule (λ (x : Runner × Bool). IsDoomed (record w { runner = x.0 }))
      (w.runner.current_id == id && w.runner.cancel_current) _ _
      (λ e. cause-Doomed by_user w w.runner.stopped h) λ e. h
