-- ===== src/Rfc9112/Send/Step/Broken.antt =====
-- An HTTP/1.1 exchange whose body is cut, or is no body in the framing that the head announces.
use io_http.Prelude.{ℕ, ◌<◌, ◌≡◌, ◌≢◌, refl, ◌∙◌, ap, Bool, Option, length}
use io_http.Text.{Bytes}
use io_http.External.Memchr.{Memchr}
use io_http.External.Url.{UrlApi}
use io_http.External.Httparse.{Httparse}
use io_http.External.Socket.{IoSocket}
use io_http.External.Socket.Transport.{Transport}
use io_http.Coroutine.{returned}
use io_http.Coroutine.Drive.{Outcome, finished, crashed, Drives, Resumes-loop, done, ask, crash}
use io_http.Rfc9110.Request.{HttpRequest}
use io_http.Rfc9110.Response.{ResponseBuilder}
use io_http.Rfc9112.Chunk
use io_http.Rfc9112.Chunk.{HttpChunksRead, HttpChunksReadError, HttpChunksReadResult}
use io_http.Rfc9112.Chunk.Reference.{
  Decoded, whole, cut_line, cut_chunk, too_large, bad_size, decode,
}
use io_http.Rfc9112.Chunk.Reference.Pieces.{Agrees}
use io_http.Rfc9112.Send.Types.{
  Http11SendResult, http_chunks_read, socket_read_exact, err, receive_chunked_body,
}
use io_http.Rfc9112.Send.Head.{Framing, no_body, chunked, until_eof, lengthed}
use io_http.Rfc9112.Send.Step.BodyPasses.{step-chunked_asks, step-chunked_err}
use io_http.Exchange.Machine.{Finishes, stops_now, asks_first}
use io_http.Rfc9112.Send.Step.ChunkedBody.{asks_input}
use io_http.Rfc9112.Send.Step.Phases.{machine, exchanging}

-- The bytes behind a head carry no body: fewer than the length that was announced, or chunks that
-- the reference does not decode to a body.
pub data Broken : Framing → Bytes → Type 0 where
  short : {n : ℕ} {payload : Bytes} → length payload < n → Broken (lengthed n) payload
  no_chunks :
      {payload : Bytes}
      → ((body : Bytes) → decode payload ≢ whole body)
      → decode payload ≢ too_large
      → Broken chunked payload

-- The error is that of the read that the framing calls for.
abbrev pub Fails :
    (io : IoSocket) (url : UrlApi) (parser : Httparse)
    → Framing
    → Http11SendResult io url parser
    → Type 0
Fails io url parser (lengthed n) r = (e : io.SocketReadExactError) × (r ≡ err (socket_read_exact e))
Fails io url parser chunked r = (e : HttpChunksReadError io) × (r ≡ err (http_chunks_read e))
Fails io url parser no_body r = ⊥
Fails io url parser until_eof r = ⊥

chunks_fail :
    (io : IoSocket) (d : Decoded) (o : Outcome (HttpChunksReadResult io))
    → ((body : Bytes) → d ≢ whole body)
    → d ≢ too_large
    → Agrees io d o
    → (e : HttpChunksReadError io) × (o ≡ finished (HttpChunksReadResult.err e))
chunks_fail io (whole body) o h k a = absurd (h body refl)
chunks_fail io cut_line o h k a = (_, a)
chunks_fail io cut_chunk o h k (e, a) = (_, a)
chunks_fail io too_large o h k a = absurd (k refl)
chunks_fail io (bad_size text) o h k a = (_, a)

module _ (io : IoSocket) (url : UrlApi) (parser : Httparse) (mem : Memchr) (t : Transport io)
    (q : HttpRequest url.Url) (closed : Bool) (response : ResponseBuilder) where
  pub chunks_break :
      {d : Decoded} {read : HttpChunksRead io} {arg : Option io.SocketOutput} {s : t.Stream}
      → ((body : Bytes) → d ≢ whole body)
      → d ≢ too_large
      → Drives (Chunk.step io mem) (Chunk.input_of io) t.handle (Agrees io d) read arg s
      → Finishes
          (machine io url parser mem)
          t
          (Fails io url parser chunked)
          (exchanging io url parser mem q closed (receive_chunked_body read response))
          arg
          s
  unfolding Chunk.resume
  chunks_break {d} none_whole fits (done {s = read} {s' = next} {a = arg} {r = r} c n p) =
      let (f, h) = Resumes-loop _ _ _ c in
      let (e, ended) = chunks_fail io d (finished r) none_whole fits p in
      let same : r ≡ HttpChunksReadResult.err e = cc in
      stops_now (machine io url parser mem) t f
        (λ fuel k.
          step-chunked_err io url parser mem fuel (exchanging io url parser mem q closed _) arg read
            next response e refl (h fuel k ∙ ap (returned next) same))
        refl (e, refl)
  chunks_break {d} none_whole fits (crash c p) =
      let (e, ended) = chunks_fail io d crashed none_whole fits p in absurd (cc)
  chunks_break {d} none_whole fits (ask {s = read} {s' = next} {a = arg} {r = r} {i = i} c e g) =
      let (f, h) = Resumes-loop _ _ _ c in
      asks_first (machine io url parser mem) t f
        (λ fuel k.
          step-chunked_asks io url parser mem fuel (exchanging io url parser mem q closed _) arg
            read next response i refl (h fuel k ∙ ap (returned next) (asks_input r i e)))
        (chunks_break none_whole fits g)
