-- ===== src/Runner/Worker/Turns.antt =====
-- What a statement of the worker keeps, and where it leads.
use build_system.Prelude.{
  ◌≡◌, ◌∙◌, ap, refl, Bool, true, false, Option, none, some, ◌==◌, if_rule, if◌then◌else◌,
}
use build_system.Models.Status.{BuildStatus, success, failed, canceled, terminal}
use build_system.Db.Builds.{Build, Change}
use build_system.Db.Builds.Runs.{after}
use build_system.Db.Builds.Extends.{Extends}
use build_system.Runner.Registry.{Cause, by_user, shut_down, timed_out, Runner, with_cause}
use build_system.Runner.Worker.{
  Phase, ending, World, Answer, done, refused, broken, answer_of, verdict, is_current, on_current,
  answered, claimed, handed_back,
}
use build_system.Runner.Worker.Owned.{holds, is_due, IsHeld, IsOwned, Rests, Rests-refl}

pub record Kept (w w' : World) : Type 0 where
  pub owned : IsOwned w'
  pub extends : Extends w.build w'.build
  pub same_id : w'.build.id ≡ w.build.id
  pub frozen :
      terminal w.build.status ≡ true → w.unfit ≡ false → (w'.build ≡ w.build) × (w'.unfit ≡ false)

-- A move that leaves the flag of a claim handler alone.
pub Rests-Kept :
    (w w' : World) → IsOwned w' → w'.unfit ≡ w.unfit → Rests w.build w'.build → Kept w w'
Rests-Kept w w' o same r = record {
  owned = o;
  extends = r.extends;
  same_id = r.same_id;
  frozen = λ e k. (r.frozen e, same ∙ k);
}

-- A move that leaves the row alone.
pub same-Kept :
    (w : World) (r : Runner) (p : Phase)
    → IsOwned w
    → (w.build.id == r.current_id ≡ true → holds p ≡ true → IsHeld w.build)
    → is_due p r.cause ≡ true
    → Kept w (record w { runner = r; phase = p })
unfolding is_current
same-Kept w r p h held due =
    Rests-Kept w (record w { runner = r; phase = p })
      (record { sound = h.sound; waiting = h.waiting; held = held; due = due; remote = h.remote })
      refl (Rests-refl w.build h.sound h.waiting)

-- A statement of the worker.
pub on_current-Kept :
    (w : World) (op : Build → Change) (p : Phase)
    → IsOwned w
    → is_due p w.runner.cause ≡ true
    → (is_current w ≡ true
        → Rests w.build (after w.build (op w.build))
          × (holds p ≡ true → IsHeld (after w.build (op w.build))))
    → Kept w (record w { build = on_current w op; phase = p })
unfolding is_current on_current
on_current-Kept w op p h due step =
    if_rule (λ b. Kept w (record w { build = b; phase = p })) (w.build.id == w.runner.current_id) _
      _
      (λ e.
        let (r, held) = step e in
        Rests-Kept w (record w { build = after w.build (op w.build); phase = p })
          (record {
            sound = r.extends.sound;
            waiting = r.waiting;
            held = λ k live. held live;
            due = due;
            remote = λ k. r.away (h.remote k);
          })
          refl r)
      λ e. same-Kept w w.runner p h (λ k. absurd (cc (k, e))) due

pub answered-current :
    (w : World) (op : Build → Change) (a : Answer)
    → is_current w ≡ true
    → answered w op a ≡ answer_of (op w.build)
unfolding answered is_current
answered-current w op a e = ap (λ t. if t then answer_of (op w.build) else a) e

pub holds-claimed : (a : Answer) → holds (claimed a) ≡ true → a ≡ done
holds-claimed done e = refl
holds-claimed refused e = absurd (cc e)
holds-claimed broken e = absurd (cc e)

pub due-claimed : (a : Answer) (c : Option Cause) → is_due (claimed a) c ≡ true
due-claimed done c = refl
due-claimed refused c = refl
due-claimed broken c = refl

pub holds-handed_back : (a : Answer) → holds (handed_back a) ≡ true → a ≡ refused
holds-handed_back done e = absurd (cc e)
holds-handed_back refused e = refl
holds-handed_back broken e = absurd (cc e)

pub due-handed_back : (a : Answer) (c : Option Cause) → is_due (handed_back a) c ≡ true
due-handed_back done c = refl
due-handed_back refused c = refl
due-handed_back broken c = refl

pub due-verdict : (ok : Bool) (c : Option Cause) → is_due (verdict ok c) c ≡ true
due-verdict true c = refl
due-verdict false none = refl
due-verdict false (some by_user) = refl
due-verdict false (some shut_down) = refl
due-verdict false (some timed_out) = refl

-- A due status stays due: the first cause stands.
pub due-with_cause :
    (p : Phase) (c : Cause) (o : Option Cause)
    → is_due p o ≡ true
    → is_due p (with_cause c o) ≡ true
due-with_cause p c (some d) h = h
due-with_cause (ending success) c none h = refl
due-with_cause (ending failed) c none h = refl
due-with_cause (ending _) c none h = absurd (cc h)
due-with_cause _ c none h = refl

pub due-terminal :
    (s : BuildStatus) (o : Option Cause) → is_due (ending s) o ≡ true → terminal s ≡ true
due-terminal success o h = refl
due-terminal failed o h = refl
due-terminal canceled o h = refl
due-terminal _ o h = absurd (cc h)
