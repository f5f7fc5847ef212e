-- ===== src/Rfc9112/Send.antt =====
-- The HTTP/1.1 exchange (src/rfc9112/send.rs): the states of the coroutine, one pass of the loop of
-- `resume` for each, and the end of an exchange.
pub mod Types
pub mod Head
pub mod Step
