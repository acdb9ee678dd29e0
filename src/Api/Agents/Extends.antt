-- ===== src/Api/Agents/Extends.antt =====
-- Bytes that stand in a log at their offset.
use build_system.Prelude.{
  ℕ, ◌+◌, ◌-◌, ◌≤◌, ◌≡◌, ◌∙◌, ap, sym, subst, List, ◌++◌, length, slice, length-append,
  slice_append_all, arith,
}
use mathlib.Core.List.{append-nil}
use build_system.Db.BuildLog.Append.{contents}
use build_system.Db.Builds.{Build}
use build_system.Db.Builds.Extends.{Extends}

-- The bytes stand at the offset.
pub record HasBytes (l : List ℕ) (at : ℕ) (bytes : List ℕ) : Type 0 where
  pub within : at + length bytes ≤ length l
  pub same : slice l at (length bytes) ≡ bytes

HasBytes-append :
    (l more : List ℕ) (at : ℕ) (bytes : List ℕ)
    → HasBytes l at bytes
    → HasBytes (l ++ more) at bytes
HasBytes-append l more at bytes h =
    let n = length bytes in
    let none_left : n - (length l - at) ≡ 0 = omega (arith, h.within) in
    record {
      within = omega (arith, h.within, length-append l more);
      same =
          slice_append_all l more at n
          ∙ ap (λ k. slice l at n ++ slice more (at - length l) k) none_left
          ∙ append-nil (slice l at n)
          ∙ h.same;
    }

pub HasBytes-Extends :
    (b b' : Build) (at : ℕ) (bytes : List ℕ)
    → Extends b b'
    → HasBytes (contents b.log) at bytes
    → HasBytes (contents b'.log) at bytes
HasBytes-Extends b b' at bytes e h =
    let (more, same) = e.grown in
    subst (λ l. HasBytes l at bytes) (sym same) (HasBytes-append (contents b.log) more at bytes h)
