-- ===== src/Ws/Loop.antt =====
-- ReadLoop: what the server answers to a client's frames until the connection ends. `writes` is how many
-- more writes the connection takes before it breaks.
use build_system.Prelude.{
  ℕ, zero, suc, ◌-◌, ◌≡◌, ◌⊎◌, Bool, true, ◌||◌, List, [], ◌∷◌, ◌++◌, length, take, All, leb, ◌==◌,
  if◌then◌else◌,
}
use build_system.Ws.Frames.{
  ok, err, Refusal, Frame, read_frame, op_close, op_ping, op_pong, op_text, op_binary,
  op_continuation,
}
use build_system.Ws.Frames.Client.{client_frame, IsByte, IsSendable}

-- Why the loop ended; `starved` never happens.
pub data Outcome : Type 0 where
  closed_by_peer broken_write starved : Outcome
  unreadable : Refusal → Outcome
  unknown_opcode : ℕ → Outcome

-- The frames that were written, and the outcome.
abbrev pub Answer : Type 0
Answer = List (ℕ × List ℕ) × Outcome

abbrev pub echo : List ℕ → List ℕ
echo payload = if leb 2 (length payload) then take 2 payload else []

abbrev pub ignored : ℕ → Bool
ignored op = op == op_pong || op == op_text || op == op_binary || op == op_continuation

abbrev pub answered : ℕ × List ℕ → Answer → Answer
answered f (fs, o) = (f ∷ fs, o)

-- One frame, with what the loop does after it, for the writes that are left.
unfoldable pub on_frame : ℕ → Frame → (ℕ → Answer) → Answer
on_frame writes f later =
    if f.opcode == op_close
    then (if writes == 0 then [] else (op_close, echo f.payload) ∷ [], closed_by_peer)
    else if f.opcode == op_ping
    then (if writes == 0
        then ([], broken_write)
        else answered (op_pong, f.payload) (later (writes - 1)))
    else if ignored f.opcode
    then later writes
    else ([], unknown_opcode f.opcode)

-- `ReadLoop` on the bytes that arrive, in at most so many rounds.
unfoldable pub read_loop : ℕ → ℕ → List ℕ → Answer
read_loop zero writes bytes = ([], starved)
read_loop (suc fuel) writes bytes = elim (read_frame bytes) [
  | err e ↦ ([], unreadable e)
  | ok f ↦ on_frame writes f (λ left. read_loop fuel left f.rest)
]

-- A client's data or control message, with its mask.
pub record Message : Type 0 where
  pub op : ℕ
  pub mask0 : ℕ
  pub mask1 : ℕ
  pub mask2 : ℕ
  pub mask3 : ℕ
  pub payload : List ℕ

abbrev pub mask : Message → List ℕ
mask m = m.mask0 ∷ m.mask1 ∷ m.mask2 ∷ m.mask3 ∷ []

abbrev pub sent : Message → List ℕ
sent m = client_frame m.op (mask m) m.payload

abbrev pub sent_all : List Message → List ℕ → List ℕ
sent_all [] rest = rest
sent_all (m ∷ ms) rest = sent m ++ sent_all ms rest

abbrev pub IsProper : Message → Type 0
IsProper m = All IsByte (mask m) × IsSendable m.op m.payload

abbrev pub IsOpen : Message → Type 0
IsOpen m = IsProper m × ((m.op ≡ op_ping) ⊎ (ignored m.op ≡ true))

-- A pong for each ping.
abbrev pub pongs : List Message → List (ℕ × List ℕ)
pongs [] = []
pongs (m ∷ ms) = if m.op == op_ping then (op_pong, m.payload) ∷ pongs ms else pongs ms
