-- ===== src/Models/Texts/Clamped.antt =====
-- ClampText: the byte loop cuts between two characters.
use Prim.Native.Nat.{◌/◌, ◌%◌}
use build_system.Prelude.{
  ℕ, zero, suc, ◌+◌, ◌-◌, ◌≤◌, ◌<◌, ◌≡◌, ◌∙◌, ap, sym, refl, Bool, true, false, ◌&&◌, ◌||◌, ◌==◌,
  List, [], ◌∷◌, ◌++◌, length, length-append, get_or, take, take_all, take-append_all, keep, All,
  ltb, leb, if_rule, if◌then◌else◌, arith,
}
use build_system.Prelude.Text.{rune_start, rune_floor}
use build_system.Models.Texts.{
  Piece, rune, stray, utf8_bytes, piece_bytes, text_bytes, survives, clamp_text,
}

-- As many whole characters as fit.
abbrev pub fitting : ℕ → List Piece → List Piece
fitting n [] = []
fitting n (p ∷ ps) =
    let rest = fitting (n - length (piece_bytes p)) ps in
    if leb (length (piece_bytes p)) n then p ∷ rest else []

-- One character's bytes: a first one, and others that continue it.
record IsWhole (l : List ℕ) : Type 0 where
  begun : 0 < length l
  first : rune_start (get_or l 0 0) ≡ true
  others : (i : ℕ) → 0 < i → i < length l → rune_start (get_or l i 0) ≡ false

one_byte : (a : ℕ) → a < 128 → IsWhole (a ∷ [])
one_byte a h = record {
  begun = omega arith;
  first = ground (arith, h);
  others = λ i p q. absurd (omega (arith, p, q));
}

more_bytes : (a : ℕ) (l : List ℕ) → 192 ≤ a → All (λ b. rune_start b ≡ false) l → IsWhole (a ∷ l)
more_bytes a l h k = record {
  begun = omega arith;
  first = ground (arith, h);
  others = λ i p q. go l k i p q;
}
  where
    at :
        (l : List ℕ)
        → All (λ b. rune_start b ≡ false) l
        → (i : ℕ) → i < length l
        → rune_start (get_or l i 0) ≡ false
    at [] k i q = absurd (omega (arith, q))
    at (b ∷ l) k zero q = k.0
    at (b ∷ l) k (suc i) q = at l k.1 i (omega (arith, q))

    go :
        (l : List ℕ)
        → All (λ b. rune_start b ≡ false) l
        → (i : ℕ) → 0 < i
        → i < suc (length l)
        → rune_start (get_or (a ∷ l) i 0) ≡ false
    go l k zero p q = absurd (omega (arith, p))
    go l k (suc i) p q = at l k i (omega (arith, q))

continues : (n : ℕ) → rune_start (128 + n % 64) ≡ false
continues n = ground arith

utf8-IsWhole : (r : ℕ) → IsWhole (utf8_bytes r)
unfolding utf8_bytes
utf8-IsWhole r =
    if_rule IsWhole (ltb r 128) _ _ (λ e. one_byte r (ground (arith, e)))
      λ e.
        if_rule IsWhole (ltb r 2048) _ _ (λ e'. more_bytes _ _ (omega arith) (continues r, tt))
          λ e'.
            if_rule IsWhole (ltb r 65536) _ _
              (λ e''. more_bytes _ _ (omega arith) (continues (r / 64), (continues r, tt)))
              λ e''.
                more_bytes _ _ (omega arith)
                  (continues (r / 4096), (continues (r / 64), (continues r, tt)))

abbrev IsRune : Piece → Type 0
IsRune (rune r) = Unit
IsRune (stray b) = ⊥

kept-IsRune : (ps : List Piece) → All IsRune (keep survives ps)
kept-IsRune [] = tt
kept-IsRune (stray b ∷ ps) = kept-IsRune ps
kept-IsRune (rune r ∷ ps) =
    if_rule (All IsRune) (survives (rune r)) _ _ (λ e. (tt, kept-IsRune ps)) λ e. kept-IsRune ps

piece-IsWhole : (p : Piece) → IsRune p → IsWhole (piece_bytes p)
piece-IsWhole (rune r) h = utf8-IsWhole r
piece-IsWhole (stray b) h = absurd h

get_or-left : (a b : List ℕ) (i : ℕ) → i < length a → get_or (a ++ b) i 0 ≡ get_or a i 0
get_or-left [] b i h = absurd (omega (arith, h))
get_or-left (x ∷ a) b zero h = refl
get_or-left (x ∷ a) b (suc i) h = get_or-left a b i (omega (arith, h))

get_or-right : (a b : List ℕ) (k i : ℕ) → k ≡ length a + i → get_or (a ++ b) k 0 ≡ get_or b i 0
get_or-right [] b k i e = let same : k ≡ i = omega (arith, e) in ap (λ j. get_or b j 0) same
get_or-right (x ∷ a) b zero i e = absurd (omega (arith, e))
get_or-right (x ∷ a) b (suc k) i e = get_or-right a b k i (omega (arith, e))

take-past : (a b : List ℕ) (n : ℕ) → take (length a + n) (a ++ b) ≡ a ++ take n b
take-past a b n =
    take-append_all (length a + n) a b
    ∙ ap (λ l. l ++ take (length a + n - length a) b) (take_all (length a + n) a (omega arith))
    ∙ (let left : length a + n - length a ≡ n = omega arith in ap (λ k. a ++ take k b) left)

-- Inside the first character, the loop goes back to its start.
floor_inside : (a b : List ℕ) (n : ℕ) → IsWhole a → n < length a → rune_floor (a ++ b) n ≡ 0
unfolding rune_floor
floor_inside a b zero h lt = refl
floor_inside a b (suc n) h lt =
    let continued : rune_start (get_or (a ++ b) (suc n) 0) ≡ false =
      ap rune_start (get_or-left a b (suc n) lt) ∙ h.others (suc n) (omega arith) lt in
    ground (arith, continued, floor_inside a b n h (omega (arith, lt)))

-- Behind it, the loop does what it does on the rest.
floor_behind :
    (a b : List ℕ) (k m : ℕ)
    → 0 < length a
    → rune_start (get_or b 0 0) ≡ true
    → k ≡ length a + m
    → rune_floor (a ++ b) k ≡ length a + rune_floor b m
unfolding rune_floor
floor_behind a b zero m h first e = absurd (omega (arith, e, h))
floor_behind a b (suc k) zero h first e =
    let starts : rune_start (get_or (a ++ b) (suc k) 0) ≡ true =
      ap rune_start (get_or-right a b (suc k) 0 e) ∙ first in
    ground (arith, starts, e)
floor_behind a b (suc k) (suc m) h first e =
    let same = ap rune_start (get_or-right a b (suc k) (suc m) e) in
    ground (arith, same, e, floor_behind a b k m h first (omega (arith, e)))

starts_whole :
    (ps : List Piece)
    → All IsRune ps
    → 0 < length (text_bytes ps)
    → rune_start (get_or (text_bytes ps) 0 0) ≡ true
starts_whole [] h lt = absurd (omega (arith, lt))
starts_whole (p ∷ ps) h lt =
    let w = piece-IsWhole p h.0 in
    ap rune_start (get_or-left (piece_bytes p) (text_bytes ps) 0 w.begun) ∙ w.first

all_fit : (ps : List Piece) (n : ℕ) → length (text_bytes ps) ≤ n → fitting n ps ≡ ps
all_fit [] n h = refl
all_fit (p ∷ ps) n h =
    let sum = length-append (piece_bytes p) (text_bytes ps) in
    let rest = all_fit ps (n - length (piece_bytes p)) (omega (arith, h, sum)) in
    if_rule (λ l. l ≡ p ∷ ps) (leb (length (piece_bytes p)) n) _ _ (λ e. ap (◌∷◌ p) rest)
      λ e. absurd (ground (arith, e, h, sum))

cut_whole :
    (ps : List Piece) (n : ℕ)
    → All IsRune ps
    → n < length (text_bytes ps)
    → take (rune_floor (text_bytes ps) n) (text_bytes ps) ≡ text_bytes (fitting n ps)
cut_whole [] n h lt = absurd (omega (arith, lt))
cut_whole (p ∷ ps) n h lt =
    let a = piece_bytes p in
    let b = text_bytes ps in
    let w = piece-IsWhole p h.0 in
    let sum = length-append a b in
    if_rule (λ l. take (rune_floor (a ++ b) n) (a ++ b) ≡ text_bytes l) (leb (length a) n) _ _
      (λ e.
        let m = n - length a in
        let split : n ≡ length a + m = ground (arith, e) in
        let left : m < length b = omega (arith, lt, sum, split) in
        ap (λ k. take k (a ++ b))
          (floor_behind a b n m w.begun (starts_whole ps h.1 (omega (arith, left))) split)
        ∙ take-past a b (rune_floor b m)
        ∙ ap (λ l. a ++ l) (cut_whole ps m h.1 left))
      λ e. ap (λ k. take k (a ++ b)) (floor_inside a b n w (ground (arith, e)))

clamped : (s : List Piece) (n : ℕ) → clamp_text s n ≡ text_bytes (fitting n (keep survives s))
unfolding clamp_text
clamped s n =
    let ps = keep survives s in
    if_rule (λ l. l ≡ text_bytes (fitting n ps)) (leb (length (text_bytes ps)) n) _ _
      (λ e. ap text_bytes (sym (all_fit ps n (ground (arith, e)))))
      λ e. cut_whole ps n (kept-IsRune s) (ground (arith, e))

-- A tab, and each character from U+0020 on that is neither U+007F nor U+FFFD, which is also what a byte
-- that is not UTF-8 reads as.
abbrev pub is_shown : Piece → Bool
is_shown (stray b) = false
is_shown (rune r) = r == 9 || (leb 32 r && leb r 126) || (leb 128 r && leb r 65532) || leb 65534 r

shown_lem : (p : Piece) → survives p ≡ is_shown p
shown_lem (stray b) = refl
shown_lem (rune r) = ground arith

-- Whatever a machine reports, the text that is kept is made of whole characters: as many as fit into the
-- bound, of those that are a tab or from U+0020 on and neither U+007F nor U+FFFD, which is also what a
-- byte that is not UTF-8 is read as.
pub clamp_text_lem :
    (s : List Piece) (n : ℕ) → clamp_text s n ≡ text_bytes (fitting n (keep is_shown s))
clamp_text_lem s n = clamped s n ∙ λ i. text_bytes (fitting n (keep (λ p. shown_lem p i) s))

pub fitting_short : (n : ℕ) (ps : List Piece) → length (text_bytes (fitting n ps)) ≤ n
fitting_short n [] = omega arith
fitting_short n (p ∷ ps) =
    let rest = fitting (n - length (piece_bytes p)) ps in
    if_rule (λ l. length (text_bytes l) ≤ n) (leb (length (piece_bytes p)) n) _ _
      (λ e. ground (
        arith,
        e,
        length-append (piece_bytes p) (text_bytes rest),
        fitting_short (n - length (piece_bytes p)) ps,
      ))
      λ e. omega arith

pub clamp_text_short : (s : List Piece) (n : ℕ) → length (clamp_text s n) ≤ n
clamp_text_short s n = omega (arith, ap length (clamped s n), fitting_short n (keep survives s))
