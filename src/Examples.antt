-- ===== src/Examples.antt =====
-- The example programs of the repository (examples/std_http10.rs, examples/tokio_http11_rustls.rs):
-- an HTTP client that follows redirects, on a fresh connection for each request.
pub mod Redirects
pub mod StdHttp10
pub mod TokioHttp11
