-- ===== src/Db/Builds/Extends.antt =====
-- Rows that came from others with their log kept and added to.
use build_system.Prelude.{ℕ, ◌≤◌, ◌≡◌, ◌∙◌, ap, sym, List, [], ◌++◌, length, length-append, arith}
use mathlib.Core.List.{append-nil, append_assoc}
use build_system.Db.BuildLog.Append.{contents}
use build_system.Db.Builds.{Build}
use build_system.Db.Builds.Lifecycle.{Op, IsSound, Follows}
use build_system.Db.Builds.Runs.{run_ops, run_ops_lem}

-- A row that came from another one by keeping its log and adding to it.
pub record Extends (b b' : Build) : Type 0 where
  pub sound : IsSound b'
  pub grown : (extra : List ℕ) × (contents b'.log ≡ contents b.log ++ extra)

pub Extends-refl : (b : Build) → IsSound b → Extends b b
Extends-refl b h = record { sound = h; grown = ([], sym (append-nil (contents b.log))) }

pub Extends-trans : (a b c : Build) → Extends a b → Extends b c → Extends a c
Extends-trans a b c h k =
    let (x, e) = h.grown in
    let (y, f) = k.grown in
    record {
      sound = k.sound;
      grown = (x ++ y, f ∙ ap (λ l. l ++ y) e ∙ append_assoc (contents a.log) x y);
    }

pub Follows-Extends : (b b' : Build) → Follows b b' → Extends b b'
Follows-Extends b b' f = record { sound = f.sound; grown = f.grown }

pub run_ops-Extends : (os : List Op) (b : Build) → IsSound b → Extends b (run_ops os b)
run_ops-Extends os b h =
    let (sound, grown, frozen) = run_ops_lem os b h in record { sound = sound; grown = grown }

pub Extends-length :
    (b b' : Build) → Extends b b' → length (contents b.log) ≤ length (contents b'.log)
Extends-length b b' e =
    let (more, same) = e.grown in omega (arith, ap length same, length-append (contents b.log) more)
