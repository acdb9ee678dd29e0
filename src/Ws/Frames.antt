-- ===== src/Ws/Frames.antt =====
-- writeFrame and readFrame: the frames that the server sends, and how it reads a client's.
pub mod Server
pub mod Client
use Prim.Native.Nat.{bit_xor, ◌/◌, ◌%◌}
use build_system.Prelude.{
  ℕ, zero, suc, ◌+◌, ◌*◌, Bool, true, false, not, ◌&&◌, ◌||◌, List, [], ◌∷◌, ◌++◌, length, take,
  drop, get_or, ltb, leb, ◌==◌, if◌then◌else◌,
}

abbrev pub op_continuation : ℕ
op_continuation = 0

abbrev pub op_text : ℕ
op_text = 1

abbrev pub op_binary : ℕ
op_binary = 2

abbrev pub op_close : ℕ
op_close = 8

abbrev pub op_ping : ℕ
op_ping = 9

abbrev pub op_pong : ℕ
op_pong = 10

-- `maxClientFrame`.
abbrev pub max_client_frame : ℕ
max_client_frame = 4096

-- What ends the reading; `short` is the end of the stream, or its failure.
pub data Refusal : Type 0 where
  short reserved unmasked too_large bad_control : Refusal

pub data Result (A : Type 0) : Type 0 where
  ok : A → Result A
  err : Refusal → Result A

infixl 5 ◌>>=◌ ◌>>◌
abbrev pub ◌>>=◌ : {A B : Type 0} → Result A → (A → Result B) → Result B
ok a >>= f = f a
err e >>= f = err e

abbrev pub ◌>>◌ : {B : Type 0} → Result (Unit {0}) → Result B → Result B
m >> k = m >>= λ _. k

abbrev pub refuse : Bool → Refusal → Result (Unit {0})
refuse true e = err e
refuse false e = ok tt

-- `io.ReadFull`.
unfoldable pub read_full : ℕ → List ℕ → Result (List ℕ × List ℕ)
read_full n bytes = if leb n (length bytes) then ok (take n bytes, drop n bytes) else err short

-- `binary.BigEndian`.
unfoldable pub big_endian : ℕ → List ℕ → ℕ
big_endian n [] = n
big_endian n (b ∷ bs) = big_endian (n * 256 + b) bs

-- The length after the first two bytes.
unfoldable pub read_length : ℕ → List ℕ → Result (ℕ × List ℕ)
read_length code bytes =
    if code == 126
    then (do r ← read_full 2 bytes; ok (big_endian 0 r.0, r.1))
    else if code == 127
    then (do
      r ← read_full 8 bytes
      refuse (ltb max_client_frame (big_endian 0 r.0)) too_large
      ok (big_endian 0 r.0, r.1))
    else ok (code, bytes)

-- `payload[i] ^= mask[i%4]`, from an index on.
unfoldable pub unmask : ℕ → List ℕ → List ℕ → List ℕ
unmask i mask [] = []
unmask i mask (b ∷ bs) = bit_xor b (get_or mask (i % 4) 0) ∷ unmask (suc i) mask bs

pub record Frame : Type 0 where
  pub opcode : ℕ
  pub payload : List ℕ
  pub rest : List ℕ

-- The mask and the payload.
unfoldable pub read_payload : ℕ → ℕ → List ℕ → Result Frame
read_payload opcode n bytes = do
  m ← read_full 4 bytes
  p ← read_full n m.1
  ok (record { opcode = opcode; payload = unmask 0 m.0 p.0; rest = p.1 })

-- The frame after its first two bytes.
unfoldable pub read_body : ℕ → ℕ → List ℕ → Result Frame
read_body b0 b1 bytes = do
  refuse (not ((b0 / 16) % 8 == 0)) reserved
  refuse (ltb b1 128) unmasked
  l ← read_length (b1 % 128) bytes
  refuse (leb op_close (b0 % 16) && (ltb b0 128 || ltb 125 l.0)) bad_control
  refuse (ltb max_client_frame l.0) too_large
  read_payload (b0 % 16) l.0 l.1

-- `readFrame`.
unfoldable pub read_frame : List ℕ → Result Frame
read_frame bytes = do h ← read_full 2 bytes; read_body (get_or h.0 0 0) (get_or h.0 1 0) h.1

-- `binary.BigEndian.AppendUint64`.
abbrev pub uint64_bytes : ℕ → List ℕ
uint64_bytes n =
    n / 72057594037927936 % 256
    ∷ n / 281474976710656 % 256
    ∷ n / 1099511627776 % 256
    ∷ n / 4294967296 % 256
    ∷ n / 16777216 % 256
    ∷ n / 65536 % 256
    ∷ n / 256 % 256
    ∷ n % 256
    ∷ []

-- The length field of a frame.
unfoldable pub length_field : ℕ → List ℕ
length_field n =
    if ltb n 126
    then n ∷ []
    else if leb n 65535
    then 126 ∷ n / 256 % 256 ∷ n % 256 ∷ []
    else 127 ∷ uint64_bytes n

-- The bytes of `writeFrame`, for an opcode below 128.
unfoldable pub frame_bytes : ℕ → List ℕ → List ℕ
frame_bytes opcode payload = (128 + opcode) ∷ (length_field (length payload) ++ payload)
