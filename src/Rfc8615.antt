-- ===== src/Rfc8615.antt =====
-- Well-known URIs (src/rfc8615).
pub mod WellKnown
