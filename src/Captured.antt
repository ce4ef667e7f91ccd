-- ===== src/Captured.antt =====
-- cmd/captured: the buffer of the packets that a new connection is sent first.
pub mod Buffer
pub mod Latest
pub mod Session
pub mod Replay
pub mod Refusal
