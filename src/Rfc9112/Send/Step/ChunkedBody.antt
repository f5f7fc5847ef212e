-- ===== src/Rfc9112/Send/Step/ChunkedBody.antt =====
-- The phase of an HTTP/1.1 exchange that reads a chunked body.
use io_http.Prelude.{◌≡◌, refl, ◌∙◌, ap, not, Bool, Option, some}
use io_http.Text.{Bytes}
use io_http.External.Memchr.{Memchr}
use io_http.External.Url.{UrlApi}
use io_http.External.Httparse.{Httparse}
use io_http.External.Socket.{IoSocket}
use io_http.External.Socket.Transport.{Transport}
use io_http.Coroutine.{returned}
use io_http.Coroutine.Drive.{finished, Drives, Resumes-loop, done, ask, crash}
use io_http.Rfc9110.Request.{HttpRequest}
use io_http.Rfc9110.Response.{ResponseBuilder, build}
use io_http.Rfc9112.Chunk
use io_http.Rfc9112.Chunk.{HttpChunksRead, HttpChunksReadResult}
use io_http.Rfc9112.Send.Types.{receive_chunked_body}
use io_http.Exchange.Machine.{Finishes, stops_now, asks_first}
use io_http.Rfc9112.Send.Step.Phases.{machine, exchanging, answer, input_of-finish}
use io_http.Rfc9112.Send.Step.BodyPasses.{step-chunked_asks, step-chunked_ends}

pub asks_input :
    {io : IoSocket} (r : HttpChunksReadResult io) (i : io.SocketInput)
    → Chunk.input_of io r ≡ some i
    → r ≡ HttpChunksReadResult.io_request i
asks_input (HttpChunksReadResult.ok b) i e = absurd (cc)
asks_input (HttpChunksReadResult.err x) i e = absurd (cc)
asks_input (HttpChunksReadResult.io_request j) i e = cc

module _ (io : IoSocket) (url : UrlApi) (parser : Httparse) (mem : Memchr) (t : Transport io)
    (q : HttpRequest url.Url) (closed : Bool) (response : ResponseBuilder) (body : Bytes) where
  pub chunks_end :
      {read : HttpChunksRead io} {arg : Option io.SocketOutput} {s : t.Stream}
      → Drives
          (Chunk.step io mem)
          (Chunk.input_of io)
          t.handle
          (λ o. o ≡ finished (HttpChunksReadResult.ok body))
          read
          arg
          s
      → Finishes
          (machine io url parser mem)
          t
          (λ r. r ≡ answer io url parser mem q closed response body)
          (exchanging io url parser mem q closed (receive_chunked_body read response))
          arg
          s
  unfolding Chunk.resume
  chunks_end (done {s = read} {s' = next} {a = arg} {r = r} c n p) =
      let same : r ≡ HttpChunksReadResult.ok body = cc in
      let (f, h) = Resumes-loop _ _ _ c in
      stops_now (machine io url parser mem) t f
        (λ fuel k.
          step-chunked_ends io url parser mem fuel (exchanging io url parser mem q closed _) q refl
            body response arg read next refl (h fuel k ∙ ap (returned next) same))
        (input_of-finish io url parser q (build response body) (not closed)) refl
  chunks_end (crash c p) = absurd (cc)
  chunks_end (ask {s = read} {s' = next} {a = arg} {r = r} {i = i} c e d) =
      let (f, h) = Resumes-loop _ _ _ c in
      asks_first (machine io url parser mem) t f
        (λ fuel k.
          step-chunked_asks io url parser mem fuel (exchanging io url parser mem q closed _) arg
            read next response i refl (h fuel k ∙ ap (returned next) (asks_input r i e)))
        (chunks_end d)
