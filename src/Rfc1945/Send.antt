-- ===== src/Rfc1945/Send.antt =====
-- The HTTP/1.0 exchange (src/rfc1945/send.rs).
pub mod Types
pub mod Head
pub mod Step
