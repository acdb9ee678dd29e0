-- ===== src/Models/Texts.antt =====
-- internal/models/models.go: texts that a build machine reports about itself, cut to a size. A text is
-- what Go's `range` makes of a string: its characters, and the bytes that are not UTF-8.
pub mod Clamped
use Prim.Native.Char.{code}
use Prim.Native.String.{String}
use Prim.Native.Nat.{◌/◌, ◌%◌}
use build_system.Prelude.{
  ℕ, zero, suc, ◌+◌, ◌-◌, ◌≤◌, ◌<◌, ◌≡◌, ◌∙◌, ap, sym, refl, Bool, true, false, not, ◌&&◌, ◌||◌,
  List, [], ◌∷◌, ◌++◌, length, length-append, get_or, take, keep, All, ltb, leb, ◌==◌, if_rule,
  if◌then◌else◌, arith,
}
use build_system.Prelude.Text.{rune_start, rune_floor}

pub data Piece : Type 0 where
  rune stray : ℕ → Piece

-- A character in UTF-8.
unfoldable pub utf8_bytes : ℕ → List ℕ
utf8_bytes r =
    if ltb r 128
    then r ∷ []
    else if ltb r 2048
    then (192 + r / 64) ∷ (128 + r % 64) ∷ []
    else if ltb r 65536
    then (224 + r / 4096) ∷ (128 + r / 64 % 64) ∷ (128 + r % 64) ∷ []
    else (240 + r / 262144) ∷ (128 + r / 4096 % 64) ∷ (128 + r / 64 % 64) ∷ (128 + r % 64) ∷ []

abbrev pub piece_bytes : Piece → List ℕ
piece_bytes (rune r) = utf8_bytes r
piece_bytes (stray b) = b ∷ []

abbrev pub text_bytes : List Piece → List ℕ
text_bytes [] = []
text_bytes (p ∷ ps) = piece_bytes p ++ text_bytes ps

-- The characters that `ClampText` keeps; a byte that is not UTF-8 decodes to `utf8.RuneError`.
abbrev pub survives : Piece → Bool
survives (stray b) = false
survives (rune r) = not (r == 65533 || (ltb r 32 && not (r == 9)) || r == 127)

-- `ClampText`.
unfoldable pub clamp_text : List Piece → ℕ → List ℕ
clamp_text s n =
    let l = text_bytes (keep survives s) in if leb (length l) n then l else take (rune_floor l n) l

-- `unicode.IsSpace`.
abbrev pub is_space : ℕ → Bool
is_space r =
    (leb 9 r && leb r 13)
    || r == 32
    || r == 133
    || r == 160
    || r == 5760
    || (leb 8192 r && leb r 8202)
    || r == 8232
    || r == 8233
    || r == 8239
    || r == 8287
    || r == 12288

abbrev pub spaced : Piece → Bool
spaced (rune r) = is_space r
spaced (stray b) = false

-- `strings.TrimSpace(name) != name`.
abbrev pub ends_spaced : List Piece → Bool
ends_spaced [] = false
ends_spaced (p ∷ []) = spaced p
ends_spaced (p ∷ q ∷ ps) = ends_spaced (q ∷ ps)

abbrev pub starts_spaced : List Piece → Bool
starts_spaced [] = false
starts_spaced (p ∷ ps) = spaced p

-- What no name may hold: a separator, a byte that is not UTF-8, or a control character.
abbrev pub is_dangerous : Piece → Bool
is_dangerous (stray b) = true
is_dangerous (rune r) = r == 47 || r == 92 || ltb r 32 || r == 127

abbrev pub some_dangerous : List Piece → Bool
some_dangerous [] = false
some_dangerous (p ∷ ps) = is_dangerous p || some_dangerous ps

abbrev pub is_dots : List Piece → Bool
is_dots (rune a ∷ []) = a == 46
is_dots (rune a ∷ rune b ∷ []) = a == 46 && b == 46
is_dots _ = false

-- `MaxAgentNameLen`.
abbrev pub max_agent_name_len : ℕ
max_agent_name_len = 64

-- `ValidAgentName`.
abbrev pub valid_agent_name : List Piece → Bool
valid_agent_name name = not (
    length (text_bytes name) == 0
    || ltb max_agent_name_len (length (text_bytes name))
    || starts_spaced name
    || ends_spaced name
    || some_dangerous name
    || is_dots name)

-- A native string holds characters only.
abbrev pub pieces : String → List Piece
pieces String.[] = []
pieces (String.◌∷◌ c s) = rune (code c) ∷ pieces s
