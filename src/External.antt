-- ===== src/External.antt =====
-- The third-party crates that the program calls, as interfaces: the operations it uses are the
-- parameters of the model, and what it relies on is stated as separate records of laws.
pub mod Secrecy
pub mod Base64
pub mod Memchr
pub mod Url
pub mod Httparse
pub mod Socket
