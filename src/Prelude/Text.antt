-- ===== src/Prelude/Text.antt =====
-- Texts: names are native strings, which the program only compares; log bytes are lists of numbers.
use Prim.Native.Char.{code}
use Prim.Native.String.{String}
use mathlib.Core.Bool.{Bool, true, false, not, ◌&&◌, ◌||◌}
use mathlib.Core.Path.{◌≡◌, refl}
use native.Mathlib.Omega.{arith}
use build_system.Prelude.Tests.{◌==◌, leb, ltb, if◌then◌else◌}
use build_system.Prelude.Lists.{get_or}
use mathlib.Core.List.{List, [], ◌∷◌}
use Prim.Native.Nat.{ℕ, zero, suc}
pub use text.Mathlib.Text.{◌==◌ as str_eq}
pub use text.Mathlib.TextEquality.{eq_iff}

-- The bytes of an ASCII text.
abbrev pub codes : String → List ℕ
codes String.[] = []
codes (String.◌∷◌ c s) = code c ∷ codes s

abbrev pub has_text : String → List String → Bool
has_text s [] = false
has_text s (x ∷ xs) = str_eq s x || has_text s xs

-- Equality of two byte strings.
abbrev pub same_bytes : List ℕ → List ℕ → Bool
same_bytes [] [] = true
same_bytes (a ∷ as_bytes) (b ∷ bs) = a == b && same_bytes as_bytes bs
same_bytes _ _ = false

pub same_bytes-eq : (xs ys : List ℕ) → same_bytes xs ys ≡ true → xs ≡ ys
same_bytes-eq [] [] h = refl
same_bytes-eq (x ∷ xs) (y ∷ ys) h = ground (arith, h, same_bytes-eq xs ys)
same_bytes-eq [] (y ∷ ys) h = absurd (cc h)
same_bytes-eq (x ∷ xs) [] h = absurd (cc h)

-- `utf8.RuneStart`: not a continuation byte 0b10xxxxxx.
abbrev pub rune_start : ℕ → Bool
rune_start b = not (leb 128 b && ltb b 192)

-- `for n > 0 && !utf8.RuneStart(chunk[n]) { n-- }`.
unfoldable pub rune_floor : List ℕ → ℕ → ℕ
rune_floor chunk zero = zero
rune_floor chunk (suc n) = if rune_start (get_or chunk (suc n) 0) then suc n else rune_floor chunk n
