-- ===== src/Ws.antt =====
-- internal/ws/ws.go: the frames of the page's WebSocket. Bytes are numbers below 256, and a test of the
-- bits of one is written by quotient and remainder. The header strings of the handshake are not modelled.
pub mod Frames
pub mod Loop
pub mod Ends
mod Tests
