-- ===== src/External/Socket/Transport.antt =====
-- A runtime of io-socket over a stream that the peer delivers and then ends, and what its coroutines
-- promise when they are resumed with the runtime's answers: a plain read gives some of the next
-- bytes, or end of file; an exact read gives exactly so many bytes, with those that it was seeded
-- with first, or an error.
use io_http.Prelude.{ℕ, ◌≤◌, ◌<◌, [], ◌++◌, ◌≡◌, ◌≢◌, none, some, length}
use io_http.Text.{Bytes, slice_to}
use io_http.External.Socket.{IoSocket, Buffer, SocketReadResult, SocketReadExactResult}

-- The runtime's `handle`, the bytes that the stream has still to deliver, and those that it was sent.
pub record Transport (io : IoSocket) : Type 1 where
  pub Stream : Type 0
  pub handle : Stream → io.SocketInput → Stream × io.SocketOutput
  pub pending : Stream → Bytes
  pub sent : Stream → Bytes

module _ (io : IoSocket) (t : Transport io) where
  -- Some of the next bytes came in: the buffer holds them in front, and is handed back.
  pub record Reads (Ready : io.SocketRead → Type 0) (r : io.SocketRead) (input : io.SocketInput)
      (s : t.Stream) : Type 0 where
    pub bytes : Bytes
    pub buf : Buffer
    pub count : ℕ
    pub next : io.SocketRead
    pub some_bytes : bytes ≢ []
    pub split : t.pending s ≡ bytes ++ t.pending (t.handle s input).0
    pub returns :
        io.read_resume r (some (t.handle s input).1) ≡ (next, SocketReadResult.ok buf count)
    pub content : slice_to count buf.bytes ≡ some bytes
    pub ready : Ready (io.read_replace next buf)

  -- The same for an exact read of `target` bytes that has `have` already.
  pub record Fills (Waiting : io.SocketReadExact → io.SocketInput → ℕ → Bytes → Type 0)
      (r : io.SocketReadExact) (input : io.SocketInput) (target : ℕ) (have : Bytes) (s : t.Stream)
      : Type 0 where
    pub bytes : Bytes
    pub next : io.SocketReadExact
    pub some_bytes : bytes ≢ []
    pub split : t.pending s ≡ bytes ++ t.pending (t.handle s input).0
    pub fits : length (have ++ bytes) ≤ target
    pub full :
        length (have ++ bytes) ≡ target
        → io.exact_resume r (some (t.handle s input).1)
          ≡ (next, SocketReadExactResult.ok (have ++ bytes))
    pub more :
        length (have ++ bytes) < target
        → (i : io.SocketInput) × (io.exact_resume r (some (t.handle s input).1)
            ≡ (next, SocketReadExactResult.io i))
          × Waiting next i target (have ++ bytes)

  pub record SocketLaws : Type 1 where
    -- A reader that can be resumed with no answer, and one that waits for an answer.
    pub Ready : io.SocketRead → Type 0
    pub Asked : io.SocketRead → io.SocketInput → Type 0
    pub default_ready : Ready io.read_default
    pub capacity_ready :
        (r : io.SocketRead) (buf : Buffer)
        → Ready (io.read_replace r buf)
        → Ready (io.read_replace (io.read_with_capacity buf.capacity) buf)
    pub read_asks :
        (r : io.SocketRead)
        → Ready r
        → (r' : io.SocketRead) × (input : io.SocketInput) × (io.read_resume r none
            ≡ (r', SocketReadResult.io input))
          × Asked r' input
    pub read_gets :
        (r : io.SocketRead) (input : io.SocketInput) (s : t.Stream)
        → Asked r input
        → t.pending s ≢ []
        → Reads Ready r input s
    pub read_ends :
        (r : io.SocketRead) (input : io.SocketInput) (s : t.Stream)
        → Asked r input
        → t.pending s ≡ []
        → (r' : io.SocketRead) × (io.read_resume r (some (t.handle s input).1)
            ≡ (r', SocketReadResult.eof))
    -- An exact read with its target and the bytes that it has, not yet resumed or waiting.
    pub Filling : io.SocketReadExact → ℕ → Bytes → Type 0
    pub Waiting : io.SocketReadExact → io.SocketInput → ℕ → Bytes → Type 0
    pub new_filling : (target : ℕ) → Filling (io.exact_new target) target []
    pub extend_filling :
        (r : io.SocketReadExact) (target : ℕ) (have bytes : Bytes)
        → Filling r target have
        → length (have ++ bytes) ≤ target
        → Filling (io.exact_extend r bytes) target (have ++ bytes)
    pub exact_full :
        (r : io.SocketReadExact) (target : ℕ) (have : Bytes)
        → Filling r target have
        → length have ≡ target
        → (r' : io.SocketReadExact) × (io.exact_resume r none ≡ (r', SocketReadExactResult.ok have))
    pub exact_asks :
        (r : io.SocketReadExact) (target : ℕ) (have : Bytes)
        → Filling r target have
        → length have < target
        → (r' : io.SocketReadExact) × (input : io.SocketInput) × (io.exact_resume r none
            ≡ (r', SocketReadExactResult.io input))
          × Waiting r' input target have
    pub exact_gets :
        (r : io.SocketReadExact) (input : io.SocketInput) (target : ℕ) (have : Bytes) (s : t.Stream)
        → Waiting r input target have
        → t.pending s ≢ []
        → Fills Waiting r input target have s
    -- The stream ends before the target is reached.
    pub exact_ends :
        (r : io.SocketReadExact) (input : io.SocketInput) (target : ℕ) (have : Bytes) (s : t.Stream)
        → Waiting r input target have
        → length have < target
        → t.pending s ≡ []
        → (r' : io.SocketReadExact) × (e : io.SocketReadExactError) × (io.exact_resume r
              (some (t.handle s input).1)
            ≡ (r', SocketReadExactResult.err e))
