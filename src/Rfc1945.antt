-- ===== src/Rfc1945.antt =====
-- HTTP/1.0 message syntax (src/rfc1945).
pub mod Send
