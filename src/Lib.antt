-- ===== src/Lib.antt =====
-- A model of io-http, a library of I/O-free HTTP client coroutines: each holds a state, and its
-- `resume` either returns a result or asks its caller for socket input or output.
--
-- Parts and files (paths from the repository's root):
-- - Rfc9112/Chunk: the decoder of chunked bodies, src/rfc9112/chunk.rs. Its child modules have the
--   grammar of a chunked body, the single passes, the reads and the whole run; Reference is a decoder
--   of the whole wire at once, with no state, that the coroutine is compared with.
-- - Rfc9112/Send: the HTTP/1.1 exchange, src/rfc9112/send.rs. Types has its state, errors and results;
--   Head what a parsed head decides; Step one function for each state's handler, and in its child
--   modules the single passes, the phases (Phases, Written, HeadRead, ChunkedBody), and the exchange
--   as a whole, complete (Payloads, Received) or broken off (Cut, Broken, Failed).
-- - Rfc1945/Send: the HTTP/1.0 exchange, src/rfc1945/send.rs, laid out in the same way.
-- - Exchange: the phases that the two exchanges share (writing, reading a head, reading a body), as
--   interfaces that each of them fills (Phases), with their runs.
-- - Rfc9110: src/rfc9110 (header names, status codes, requests, responses and their builder), with
--   what the two exchanges share: the serialized request (Wire) and the target of a redirect
--   (Redirect).
-- - Rfc8615/WellKnown: src/rfc8615/well_known.rs, which wraps the HTTP/1.1 exchange.
-- - Rfc7617/Basic and Rfc6750/Bearer: the two authorization schemes, src/rfc7617/basic.rs and
--   src/rfc6750/bearer.rs.
-- - Examples: the two example programs, examples/std_http10.rs and examples/tokio_http11_rustls.rs.
--   Redirects has their outer loop; Asks, Run and Prints what a round sends, what it ends with, and the
--   whole program.
-- - Coroutine: the loop of a `resume`, and the loop of its caller (examples/std_http10.rs): Drive
--   for a coroutine with no inner loop, Runs for one whose passes run an inner loop on fuel, Keeps
--   for what every pass keeps, More for runs with more fuel than they need, Converse for any
--   `resume`, and one that wraps another.
-- - Text: the functions of Rust's standard library that the program uses on bytes and strings.
-- - External: the crates that the program calls, each as a record of operations (io-socket,
--   httparse, url, memchr, base64, secrecy) and, where a proof needs it, of laws. External/Socket has
--   the stream that a runtime of io-socket stands for, and what its coroutines promise over it.
-- - Prelude: names that the modules share. Tests: concrete externals and runs.
--
-- Correspondence. A struct is a record and an enum a data type with the source's variants. One
-- pass of the `loop` of a `resume` is `step`: it goes round again, returns, or panics; `resume` is
-- `step` in a loop. `arg.take()` is an argument that later passes do not get. Bytes are native
-- numbers, strings their UTF-8 bytes, and a `usize` has 64 bits: its parsing refuses what does not
-- fit, and `chunk_size + 2` wraps round, as it does without overflow checks.
--
-- Fuel. `resume` and the caller's loop run on fuel, the passes of a call and the calls. A number of
-- passes that is enough depends on how the stream is cut into pieces, so a statement that a run
-- ends gives some fuel and holds on every larger one. The HTTP/1.1 exchange gives the chunk decoder
-- the same fuel as itself. The outer loop of the example programs has the number of its requests as
-- fuel, and its state is the number of the round and the URL, as each round connects anew; what it
-- returns is stated for some number, or for any.
--
-- Not modelled: log output; the layout that the formatter gives to debug output, which here is a
-- name and named fields; `to_lowercase` outside ASCII, as header names are ASCII; zeroing of
-- secrets in memory; a runtime whose `handle` fails, where the example programs panic. A slice at an
-- index that a search returned is taken to be in range.
pub mod Prelude
pub mod Text
pub mod External
pub mod Coroutine
pub mod Exchange
pub mod Rfc9110
pub mod Rfc9112
pub mod Rfc1945
pub mod Rfc8615
pub mod Rfc7617
pub mod Rfc6750
pub mod Examples
pub mod Tests
