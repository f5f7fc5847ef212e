-- ===== src/Rfc6750.antt =====
-- OAuth 2.0 bearer tokens (src/rfc6750).
pub mod Bearer
