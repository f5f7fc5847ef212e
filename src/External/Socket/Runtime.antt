-- ===== src/External/Socket/Runtime.antt =====
-- What the coroutines of io-socket that write, and that read to the end of the stream, promise when
-- they are resumed with the runtime's answers.
use io_http.Prelude.{[], ◌++◌, ◌≡◌, ◌≢◌, none, some}
use io_http.Text.{Bytes}
use io_http.External.Socket.{IoSocket, SocketWriteResult, SocketReadToEndResult}
use io_http.External.Socket.Transport.{Transport}

module _ (io : IoSocket) (t : Transport io) where
  -- The stream took the first of the bytes that were still to write, and nothing else changed.
  pub record Writes (Writing : io.SocketWrite → io.SocketInput → Bytes → Type 0)
      (w : io.SocketWrite) (input : io.SocketInput) (bytes : Bytes) (s : t.Stream) : Type 0 where
    pub part : Bytes
    pub rest : Bytes
    pub next : io.SocketWrite
    pub some_bytes : part ≢ []
    pub split : bytes ≡ part ++ rest
    pub taken : t.sent (t.handle s input).0 ≡ t.sent s ++ part
    pub unread : t.pending (t.handle s input).0 ≡ t.pending s
    pub full :
        rest ≡ [] → io.write_resume w (some (t.handle s input).1) ≡ (next, SocketWriteResult.ok)
    pub more :
        rest ≢ []
        → (i : io.SocketInput) × (io.write_resume w (some (t.handle s input).1)
            ≡ (next, SocketWriteResult.io i))
          × Writing next i rest

  -- Some of the next bytes came in, and the reader asks for more.
  pub record Gains (Awaiting : io.SocketReadToEnd → io.SocketInput → Bytes → Type 0)
      (r : io.SocketReadToEnd) (input : io.SocketInput) (have : Bytes) (s : t.Stream) : Type 0 where
    pub bytes : Bytes
    pub next : io.SocketReadToEnd
    pub input' : io.SocketInput
    pub some_bytes : bytes ≢ []
    pub split : t.pending s ≡ bytes ++ t.pending (t.handle s input).0
    pub returns :
        io.to_end_resume r (some (t.handle s input).1) ≡ (next, SocketReadToEndResult.io input')
    pub awaits : Awaiting next input' (have ++ bytes)

  pub record RuntimeLaws : Type 1 where
    -- A writer that waits, with the bytes that it has still to write.
    pub Writing : io.SocketWrite → io.SocketInput → Bytes → Type 0
    pub write_asks :
        (bytes : Bytes)
        → bytes ≢ []
        → (w : io.SocketWrite) × (input : io.SocketInput) × (io.write_resume
              (io.write_new bytes)
              none
            ≡ (w, SocketWriteResult.io input))
          × Writing w input bytes
    pub write_goes :
        (w : io.SocketWrite) (input : io.SocketInput) (bytes : Bytes) (s : t.Stream)
        → Writing w input bytes
        → bytes ≢ []
        → Writes Writing w input bytes s
    -- A reader to the end with the bytes that it has, not yet resumed or waiting.
    pub Draining : io.SocketReadToEnd → Bytes → Type 0
    pub Awaiting : io.SocketReadToEnd → io.SocketInput → Bytes → Type 0
    pub new_draining : Draining io.to_end_new []
    pub extend_draining :
        (r : io.SocketReadToEnd) (have bytes : Bytes)
        → Draining r have
        → Draining (io.to_end_extend r bytes) (have ++ bytes)
    pub to_end_asks :
        (r : io.SocketReadToEnd) (have : Bytes)
        → Draining r have
        → (r' : io.SocketReadToEnd) × (input : io.SocketInput) × (io.to_end_resume r none
            ≡ (r', SocketReadToEndResult.io input))
          × Awaiting r' input have
    pub to_end_gets :
        (r : io.SocketReadToEnd) (input : io.SocketInput) (have : Bytes) (s : t.Stream)
        → Awaiting r input have
        → t.pending s ≢ []
        → Gains Awaiting r input have s
    pub to_end_ends :
        (r : io.SocketReadToEnd) (input : io.SocketInput) (have : Bytes) (s : t.Stream)
        → Awaiting r input have
        → t.pending s ≡ []
        → (r' : io.SocketReadToEnd) × (io.to_end_resume r (some (t.handle s input).1)
            ≡ (r', SocketReadToEndResult.ok have))
