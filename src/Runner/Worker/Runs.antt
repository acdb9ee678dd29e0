-- ===== src/Runner/Worker/Runs.antt =====
-- What sequences of moves keep of the row and of the worker's hold on it.
use build_system.Prelude.{◌≡◌, ◌∙◌, ap, refl, true, false, List, [], ◌∷◌}
use build_system.Models.Status.{terminal}
use build_system.Db.Builds.{Build}
use build_system.Db.Builds.Extends.{Extends, Extends-refl, Extends-trans}
use build_system.Runner.Worker.{World, Move, move, run_moves}
use build_system.Runner.Worker.Owned.{IsOwned}
use build_system.Runner.Worker.Moves.{move-Kept}
use build_system.Runner.Worker.Turns.{Kept}

-- What any moves keep: the row stays sound, its log grows at the end only, and a decided build is left as
-- it is, unless a claim handler is about to fail it.
pub record Runs (w w' : World) : Type 0 where
  pub owned : IsOwned w'
  pub extends : Extends w.build w'.build
  pub frozen :
      terminal w.build.status ≡ true → w.unfit ≡ false → (w'.build ≡ w.build) × (w'.unfit ≡ false)

pub Runs-trans : (a b c : World) → Runs a b → Runs b c → Runs a c
Runs-trans a b c h k = record {
  owned = k.owned;
  extends = Extends-trans a.build b.build c.build h.extends k.extends;
  frozen = λ e fit.
      let (same, still) = h.frozen e fit in
      let (same', last) = k.frozen (ap (λ (x : Build). terminal x.status) same ∙ e) still in
      (same' ∙ same, last);
}

pub Kept-Runs : (w w' : World) → Kept w w' → Runs w w'
Kept-Runs w w' k = record { owned = k.owned; extends = k.extends; frozen = k.frozen }

-- Every sequence of moves keeps them.
pub run_moves-Runs : (ms : List Move) (w : World) → IsOwned w → Runs w (run_moves ms w)
unfolding run_moves
run_moves-Runs [] w h = record {
  owned = h;
  extends = Extends-refl w.build h.sound;
  frozen = λ e fit. (refl, fit);
}
run_moves-Runs (m ∷ ms) w h =
    let k = move-Kept m w h in
    Runs-trans w (move m w) (run_moves ms (move m w)) (Kept-Runs w (move m w) k)
      (run_moves-Runs ms (move m w) k.owned)
