-- ===== src/Rfc7617.antt =====
-- HTTP Basic authentication (src/rfc7617).
pub mod Basic
