-- ===== src/Prelude/Maps.antt =====
-- Maps as functions on number keys, and sets of numbers as lists.
use Prim.Native.Nat.{ℕ}
use mathlib.Core.Path.{◌≡◌, refl, ap}
use mathlib.Core.Logic.{◌≢◌, inl, inr}
use mathlib.Core.Bool.{Bool, false, ◌&&◌, ◌||◌}
use mathlib.Core.List.{List, [], ◌∷◌}
use native.Mathlib.Omega.{arith}
use build_system.Prelude.Tests.{◌==◌, if◌then◌else◌, Bool-cases, ==_iff}
use build_system.Prelude.Lists.{keep}

-- `m[k] = v`.
abbrev pub update {ℓ} : {A : Type ℓ} → (ℕ → A) → ℕ → A → ℕ → A
update m k v j = if j == k then v else m j

pub update_self {ℓ} : {A : Type ℓ} (m : ℕ → A) (k : ℕ) (v : A) → update m k v k ≡ v
update_self m k v = ground arith

pub update_ne {ℓ} : {A : Type ℓ} (m : ℕ → A) (k : ℕ) (v : A) (j : ℕ) → j ≢ k → update m k v j ≡ m j
update_ne m k v j h = ground arith

abbrev pub contains : ℕ → List ℕ → Bool
contains c [] = false
contains c (x ∷ xs) = c == x || contains c xs

pub contains-keep :
    (p : ℕ → Bool) (c : ℕ) (xs : List ℕ) → contains c (keep p xs) ≡ (contains c xs && p c)
contains-keep p c [] = refl
contains-keep p c (x ∷ xs) = elim (Bool-cases (c == x)) [
  | inl e ↦ ground (arith, ap p ((==_iff c x).0 e), contains-keep p c xs)
  | inr e ↦ ground (arith, contains-keep p c xs)
]
