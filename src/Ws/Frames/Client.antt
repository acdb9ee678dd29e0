-- ===== src/Ws/Frames/Client.antt =====
-- The frames that a client sends by the protocol, and that the server reads back what was sent.
use Prim.Native.Nat.{bit_xor, ◌/◌, ◌%◌, ◌<◌}
use build_system.Prelude.{
  ℕ, zero, suc, ◌+◌, ◌≤◌, ◌≡◌, ◌⊎◌, ap, refl, Bool, true, false, List, [], ◌∷◌, ◌++◌, length, take,
  drop, All, ltb, ◌==◌, if◌then◌else◌,
}
use build_system.Ws.Frames.{unmask}

-- The length field with the mask bit, for a payload that the server takes.
abbrev pub masked_length : ℕ → List ℕ
masked_length n = if ltb n 126 then (128 + n) ∷ [] else 254 ∷ n / 256 ∷ n % 256 ∷ []

-- A masked frame, whole in one piece.
unfoldable pub client_frame : ℕ → List ℕ → List ℕ → List ℕ
client_frame op mask payload =
    (128 + op) ∷ (masked_length (length payload) ++ (mask ++ unmask 0 mask payload))

abbrev pub IsByte : ℕ → Type 0
IsByte b = b < 256

abbrev is_restored : ℕ → ℕ → Bool
is_restored m x = bit_xor (bit_xor x m) m == x

-- One mask byte on every byte below a bound.
restores : ℕ → ℕ → Bool
restores m zero = true
restores m (suc bound) = if is_restored m bound then restores m bound else false

-- Every mask byte below a bound on every byte.
masks_restore : ℕ → Bool
masks_restore zero = true
masks_restore (suc bound) = if restores bound 256 then masks_restore bound else false

pub take_first : (xs ys : List ℕ) → take (length xs) (xs ++ ys) ≡ xs
take_first [] ys = refl
take_first (x ∷ xs) ys = ap (λ l. x ∷ l) (take_first xs ys)

pub drop_first : (xs ys : List ℕ) → drop (length xs) (xs ++ ys) ≡ ys
drop_first [] ys = refl
drop_first (x ∷ xs) ys = drop_first xs ys

-- What the server takes: no more than 4 KiB, and 125 bytes in a control frame.
pub record IsSendable (op : ℕ) (payload : List ℕ) : Type 0 where
  pub low : op < 16
  pub fits : length payload ≤ 4096
  pub control : (op < 8) ⊎ (length payload ≤ 125)
  pub bytes : All IsByte payload
