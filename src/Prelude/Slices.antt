-- ===== src/Prelude/Slices.antt =====
-- The bytes `start`, …, `start + n - 1` of a list.
use Prim.Native.Nat.{ℕ, zero, suc, ◌+◌, ◌-◌, ◌≤◌}
use mathlib.Core.Path.{◌≡◌, refl, ap, sym, ◌∙◌}
use mathlib.Core.List.{List, [], ◌∷◌, ◌++◌}
use native.Mathlib.Omega.{arith}
use build_system.Prelude.Lists.{
  length, take, drop, length-take, length-drop, take-append_all, drop-append_all,
}

module _ {ℓ} {A : Type ℓ} where
  abbrev pub slice : List A → ℕ → ℕ → List A
  slice xs start n = take n (drop start xs)

module _ {ℓ} {A : Type ℓ} where
  pub drop-nil : (n : ℕ) → (let e : List A = [] in drop n e) ≡ []
  drop-nil zero = refl
  drop-nil (suc n) = refl

  take-nil : (n : ℕ) → (let e : List A = [] in take n e) ≡ []
  take-nil zero = refl
  take-nil (suc n) = refl

  pub slice-nil : (start n : ℕ) → (let e : List A = [] in slice e start n) ≡ []
  slice-nil start n = ap (take n) (drop-nil start) ∙ take-nil n

  pub drop-drop : (a b : ℕ) (xs : List A) → drop b (drop a xs) ≡ drop (a + b) xs
  drop-drop zero b xs = let e : b ≡ 0 + b = omega arith in ap (λ k. drop k xs) e
  drop-drop (suc a) b [] = drop-nil b ∙ sym (drop-nil (suc a + b))
  drop-drop (suc a) b (x ∷ xs) =
      let e : suc (a + b) ≡ suc a + b = omega arith in
      drop-drop a b xs ∙ ap (λ k. drop k (x ∷ xs)) e

  pub length-slice :
      (xs : List A) (start n : ℕ) → start + n ≤ length xs → length (slice xs start n) ≡ n
  length-slice xs start n h = omega (arith, length-take n (drop start xs), length-drop start xs)

  drop-take : (k n : ℕ) (xs : List A) → drop k (take n xs) ≡ take (n - k) (drop k xs)
  drop-take zero n xs = let e : n ≡ n - 0 = omega arith in ap (λ j. take j xs) e
  drop-take (suc k) zero xs =
      let e : 0 ≡ 0 - suc k = omega arith in ap (λ j. take j (drop (suc k) xs)) e
  drop-take (suc k) (suc n) [] = sym (take-nil (suc n - suc k))
  drop-take (suc k) (suc n) (x ∷ xs) =
      let e : n - k ≡ suc n - suc k = omega arith in
      drop-take k n xs ∙ ap (λ j. take j (drop k xs)) e

  pub drop-slice :
      (k : ℕ) (xs : List A) (start n : ℕ) → drop k (slice xs start n) ≡ slice xs (start + k) (n - k)
  drop-slice k xs start n = drop-take k n (drop start xs) ∙ ap (take (n - k)) (drop-drop start k xs)

  take-take : (k n : ℕ) (xs : List A) → k ≤ n → take k (take n xs) ≡ take k xs
  take-take zero n xs h = refl
  take-take (suc k) zero xs h = absurd (omega arith)
  take-take (suc k) (suc n) [] h = refl
  take-take (suc k) (suc n) (x ∷ xs) h = ap (◌∷◌ x) (take-take k n xs (omega arith))

  pub take-slice :
      (k : ℕ) (xs : List A) (start n : ℕ) → k ≤ n → take k (slice xs start n) ≡ slice xs start k
  take-slice k xs start n h = take-take k n (drop start xs) h

  take-add : (a b : ℕ) (xs : List A) → take (a + b) xs ≡ take a xs ++ take b (drop a xs)
  take-add zero b xs = let e : 0 + b ≡ b = omega arith in ap (λ k. take k xs) e
  take-add (suc a) b [] = take-nil (suc a + b) ∙ sym (take-nil b)
  take-add (suc a) b (x ∷ xs) =
      let e : suc a + b ≡ suc (a + b) = omega arith in
      ap (λ k. take k (x ∷ xs)) e ∙ ap (◌∷◌ x) (take-add a b xs)

  -- A range and the next one make one range.
  pub slice-append :
      (xs : List A) (start a b : ℕ)
      → slice xs start a ++ slice xs (start + a) b ≡ slice xs start (a + b)
  slice-append xs start a b = sym (
      take-add a b (drop start xs)
      ∙ ap (λ r. take a (drop start xs) ++ take b r) (drop-drop start a xs))

  -- A range of two joined lists is a range of each.
  pub slice_append_all :
      (xs ys : List A) (start n : ℕ)
      → slice (xs ++ ys) start n
        ≡ slice xs start n ++ slice ys (start - length xs) (n - (length xs - start))
  slice_append_all xs ys start n =
      ap (take n) (drop-append_all start xs ys)
      ∙ take-append_all n (drop start xs) (drop (start - length xs) ys)
      ∙ ap (λ k. slice xs start n ++ take (n - k) (drop (start - length xs) ys))
          (length-drop start xs)
