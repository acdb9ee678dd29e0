-- ===== src/Ws/Frames/Server.antt =====
-- The frames that the server sends, read by the protocol's description.
use Prim.Native.Nat.{◌/◌, ◌%◌, ◌<◌}
use build_system.Prelude.{
  ℕ, ◌+◌, ◌*◌, ◌≡◌, ◌∙◌, ap, refl, ◌||◌, length-append, List, ◌∷◌, ◌++◌, Option, none, some, length,
  take, drop, ltb, leb, ◌==◌, if_rule, if◌then◌else◌, arith,
}
use build_system.Ws.Frames.{frame_bytes, length_field, uint64_bytes}
use build_system.Ws.Frames.Client.{take_first, drop_first}

-- A whole, unmasked frame: the opcode, the payload and what is behind it.
abbrev pub Message : Type 0
Message = ℕ × List ℕ × List ℕ

abbrev cut_payload : ℕ → ℕ → List ℕ → Option Message
cut_payload op n bytes =
    if leb n (length bytes) then some (op, take n bytes, drop n bytes) else none

abbrev long_payload : ℕ → List ℕ → Option Message
long_payload op (a ∷ b ∷ c ∷ d ∷ e ∷ f ∷ g ∷ h ∷ bytes) =
    cut_payload op
      (a * 72057594037927936
        + b * 281474976710656
        + c * 1099511627776
        + d * 4294967296
        + e * 16777216
        + f * 65536
        + g * 256
        + h)
      bytes
long_payload op _ = none

abbrev medium_payload : ℕ → List ℕ → Option Message
medium_payload op (a ∷ b ∷ bytes) = cut_payload op (a * 256 + b) bytes
medium_payload op _ = none

pub parse_frame : List ℕ → Option Message
parse_frame (first ∷ size ∷ bytes) =
    if leb 128 size || ltb first 128
    then none
    else if ltb size 126
    then cut_payload (first % 16) size bytes
    else if size == 126
    then medium_payload (first % 16) bytes
    else long_payload (first % 16) bytes
parse_frame _ = none

cut_payload-append :
    (op : ℕ) (payload rest : List ℕ) (n : ℕ)
    → n ≡ length payload
    → cut_payload op n (payload ++ rest) ≡ some (op, payload, rest)
cut_payload-append op payload rest n e =
    ap (λ k. cut_payload op k (payload ++ rest)) e
    ∙ if_rule (λ o. o ≡ some (op, payload, rest)) (leb (length payload) (length (payload ++ rest)))
        _ _
        (λ k.
          ap (λ l. some (op, l, drop (length payload) (payload ++ rest))) (take_first payload rest)
          ∙ ap (λ l. some (op, payload, l)) (drop_first payload rest))
        (λ k. absurd (ground (arith, k, length-append payload rest)))

uint64_value :
    (n : ℕ)
    → n < 18446744073709551616
    → n / 72057594037927936 % 256 * 72057594037927936
        + n / 281474976710656 % 256 * 281474976710656
        + n / 1099511627776 % 256 * 1099511627776
        + n / 4294967296 % 256 * 4294967296
        + n / 16777216 % 256 * 16777216
        + n / 65536 % 256 * 65536
        + n / 256 % 256 * 256
        + n % 256
      ≡ n
uint64_value n h = omega arith

abbrev by_size : ℕ → ℕ → List ℕ → Option Message
by_size op size bytes =
    if ltb size 126
    then cut_payload op size bytes
    else if size == 126
    then medium_payload op bytes
    else long_payload op bytes

parse_frame-cons :
    (op size : ℕ) (bytes : List ℕ)
    → op < 16
    → size < 128
    → parse_frame ((128 + op) ∷ size ∷ bytes) ≡ by_size op size bytes
unfolding parse_frame
parse_frame-cons op size bytes o h =
    if_rule (λ r. r ≡ by_size op size bytes) (leb 128 size || ltb (128 + op) 128) _ _
      (λ k. absurd (ground (arith, k, h)))
      λ k. (let low : (128 + op) % 16 ≡ op = omega (arith, o) in ap (λ q. by_size q size bytes) low)

small-payload : (op n : ℕ) (bytes : List ℕ) → n < 126 → by_size op n bytes ≡ cut_payload op n bytes
small-payload op n bytes h =
    if_rule (λ r. r ≡ cut_payload op n bytes) (ltb n 126) _ _ (λ k. refl)
      λ k. absurd (ground (arith, k, h))

-- Each frame that the server writes, of any size below 2 ^ 64 and with any bytes behind it, is a whole
-- unmasked frame with that opcode and payload, in the shortest of the three forms of the length.
pub parse_frame-frame_bytes :
    (op : ℕ) (payload rest : List ℕ)
    → op < 16
    → length payload < 18446744073709551616
    → parse_frame (frame_bytes op payload ++ rest) ≡ some (op, payload, rest)
unfolding parse_frame frame_bytes length_field
parse_frame-frame_bytes op payload rest o h =
    let n = length payload in
    if_rule (λ l. parse_frame ((128 + op) ∷ ((l ++ payload) ++ rest)) ≡ some (op, payload, rest))
      (ltb n 126) _ _
      (λ e.
        parse_frame-cons op n (payload ++ rest) o (ground (arith, e))
        ∙ small-payload op n (payload ++ rest) (ground (arith, e))
        ∙ cut_payload-append op payload rest n refl)
      λ e.
        if_rule
          (λ l. parse_frame ((128 + op) ∷ ((l ++ payload) ++ rest)) ≡ some (op, payload, rest))
          (leb n 65535) _ _
          (λ e'.
            parse_frame-cons op 126 (n / 256 % 256 ∷ n % 256 ∷ (payload ++ rest)) o (omega arith)
            ∙ cut_payload-append op payload rest (n / 256 % 256 * 256 + n % 256)
                (ground (arith, e')))
          λ e'.
            parse_frame-cons op 127 (uint64_bytes n ++ (payload ++ rest)) o (omega arith)
            ∙ cut_payload-append op payload rest _ (uint64_value n h)
