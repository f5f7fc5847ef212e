-- ===== src/Rfc9112.antt =====
-- HTTP/1.1 message syntax (src/rfc9112).
pub mod Chunk
pub mod Send
