-- ===== src/Tests.antt =====
-- Runs of the definitions at concrete inputs, against small concrete externals.
pub mod Sample
pub mod Stream
pub mod Runtime
pub mod Bodies
pub mod Decoding
pub mod Whole
pub mod Failing
pub mod Whole10
pub mod Moved
pub mod Clients
pub mod Clients10
pub mod Clients11
pub mod Auth
pub mod Heads
pub mod Exchange
pub mod Requests
