-- ===== src/Rfc9110.antt =====
-- HTTP semantics (src/rfc9110): the types that the wire formats share.
pub mod Headers
pub mod Status
pub mod Debug
pub mod Request
pub mod Response
pub mod Wire
pub mod Redirect
