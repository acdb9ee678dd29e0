-- ===== src/Models/Tests.antt =====
-- A text that is cut.
use build_system.Prelude.{◌≡◌, refl, List, [], ◌∷◌, keep}
use build_system.Prelude.Text.{rune_floor}
use build_system.Models.Texts.{Piece, rune, stray, utf8_bytes, text_bytes, clamp_text}
use build_system.Models.Texts.Clamped.{fitting, is_shown, clamp_text_lem}

-- A tab, a bell, a letter with two bytes, and a byte that is not UTF-8, in room for two bytes.
abbrev reported : List Piece
reported = rune 9 ∷ rune 7 ∷ rune 233 ∷ stray 255 ∷ rune 97 ∷ []

clamp_text_lem_example : clamp_text reported 2 ≡ text_bytes (fitting 2 (keep is_shown reported))
clamp_text_lem_example = clamp_text_lem reported 2

-- Only the tab fits.
clamp_reported : clamp_text reported 2 ≡ 9 ∷ []
unfolding clamp_text utf8_bytes rune_floor
clamp_reported = refl
