-- ===== src/Ws/Tests.antt =====
-- Frames of a client: a ping with two bytes and a close, and what the server writes.
use build_system.Prelude.{◌≡◌, refl, [], ◌∷◌, ◌++◌, some, arith}
use build_system.Ws.Frames.{frame_bytes, unmask}
use build_system.Ws.Frames.Client.{client_frame}
use build_system.Ws.Frames.Server.{parse_frame, parse_frame-frame_bytes}
use build_system.Ws.Loop.{Message, sent}

abbrev ping : Message
ping = record { op = 9; mask0 = 1; mask1 = 2; mask2 = 3; mask3 = 255; payload = 104 ∷ 105 ∷ [] }

abbrev bye : Message
bye = record { op = 8; mask0 = 9; mask1 = 8; mask2 = 7; mask3 = 6; payload = 3 ∷ 232 ∷ 33 ∷ [] }

-- The bytes of that ping on the wire.
ping_bytes : sent ping ≡ 137 ∷ 130 ∷ 1 ∷ 2 ∷ 3 ∷ 255 ∷ 105 ∷ 107 ∷ []
unfolding client_frame unmask
ping_bytes = refl

parse_frame-frame_bytes_example :
    parse_frame (frame_bytes 1 (104 ∷ 105 ∷ []) ++ (7 ∷ [])) ≡ some (1, 104 ∷ 105 ∷ [], 7 ∷ [])
parse_frame-frame_bytes_example =
    parse_frame-frame_bytes 1 (104 ∷ 105 ∷ []) (7 ∷ []) (omega arith) (omega arith)
