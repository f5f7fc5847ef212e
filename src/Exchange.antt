-- ===== src/Exchange.antt =====
-- What the HTTP/1.1 and the HTTP/1.0 exchange share: phases that write, read a head, and read a body,
-- each as an interface that the exchange fills, and the caller's loop over them.
pub mod Machine
pub mod Writing
pub mod Heading
pub mod Filling
pub mod Draining
