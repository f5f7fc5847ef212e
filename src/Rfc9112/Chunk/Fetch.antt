-- ===== src/Rfc9112/Chunk/Fetch.antt =====
-- The loop that reads until a separator is in the buffer, driven by the caller.
use io_http.Prelude.{
  ℕ, zero, suc, ◌≤◌, [], ◌++◌, ◌≡◌, ◌≢◌, refl, sym, ◌∙◌, ap, inl, inr, Option, none, some, length,
  arith, append_assoc, append-nil, length-append, length-pos, Option-cases,
}
use io_http.Text.{Bytes}
use io_http.Text.Search.{index_of, index_of-append}
use io_http.External.Memchr.{Memchr}
use io_http.External.Socket.{IoSocket}
use io_http.External.Socket.Transport.{Transport, SocketLaws}
use io_http.Coroutine.Drive.{Outcome, Drives, ask, stop, Drives-pass}
use io_http.Rfc9112.Chunk.{State, HttpChunksRead, HttpChunksReadResult, fill, step, input_of}
use io_http.Rfc9112.Chunk.Passes.{fill-asks, fill-gets}

module _ (io : IoSocket) (mem : Memchr) (t : Transport io) (laws : SocketLaws io t) where
  -- The caller's loop, from the decoder `m`, ends with a result that meets `P`.
  abbrev pub Goes :
      (Outcome (HttpChunksReadResult io) → Type 0)
      → HttpChunksRead io
      → Option io.SocketOutput
      → t.Stream
      → Type 0
  Goes P m arg s = Drives (step io mem) (input_of io) t.handle P m arg s

  -- The decoder stands in `st` with its reader ready, and `wire` is what is buffered and still to come.
  pub record At (st : State io) (done_body on_wire : Bytes) (m : HttpChunksRead io) (s : t.Stream)
      : Type 0 where
    pub state : m.state ≡ st
    pub ready : laws.Ready m.read
    pub body : m.body ≡ done_body
    pub wire : m.buffer ++ t.pending s ≡ on_wire

  still_pending :
      (needle buffer more a b : Bytes)
      → index_of needle buffer ≡ none
      → buffer ++ more ≡ a ++ (needle ++ b)
      → more ≢ []
  still_pending needle buffer more a b e f ended =
      index_of-append a needle b
        (ap (index_of needle) (sym f ∙ ap (λ x. buffer ++ x) ended ∙ append-nil buffer) ∙ e)

  pub shorter :
      (n : ℕ) (bytes before after : Bytes)
      → bytes ≢ []
      → before ≡ bytes ++ after
      → length before ≤ suc n
      → length after ≤ n
  shorter n bytes before after h e le =
      let pos = length-pos bytes h in
      let sum = length-append bytes after in let same = ap length e in omega arith

  module _ (st : State io) (needle body wire : Bytes)
      (waits : (m : HttpChunksRead io) (arg : Option io.SocketOutput)
        → m.state ≡ st
        → index_of needle m.buffer ≡ none
        → step io mem m arg ≡ fill io m arg)
      {P : Outcome (HttpChunksReadResult io) → Type 0} where
    -- One read, with what follows it.
    pub fetch_once :
        (n : ℕ) (m : HttpChunksRead io) (s : t.Stream)
        → length (t.pending s) ≤ suc n
        → At st body wire m s
        → index_of needle m.buffer ≡ none
        → t.pending s ≢ []
        → ((m' : HttpChunksRead io) (s' : t.Stream)
            → length (t.pending s') ≤ n
            → At st body wire m' s'
            → Goes P m' none s')
        → Goes P m none s
    fetch_once n m s le at missing more rest =
        let (r', input, asks, asked) = laws.read_asks m.read at.ready in
        let got = laws.read_gets r' input s asked more in
        let m₁ : HttpChunksRead io = record m { read = r' } in
        let m₂ : HttpChunksRead io = record m {
          buffer = m.buffer ++ got.bytes;
          read = io.read_replace got.next got.buf;
        } in
        let s₂ = (t.handle s input).0 in
        let at₂ : At st body wire m₂ s₂ = record {
          state = at.state;
          ready = got.ready;
          body = at.body;
          wire =
              append_assoc m.buffer got.bytes (t.pending s₂)
              ∙ ap (λ x. m.buffer ++ x) (sym got.split)
              ∙ at.wire;
        } in
        ask (stop (waits m none at.state missing ∙ fill-asks io m none r' input asks)) refl (
          Drives-pass _ _ _
            (waits m₁ _ at.state missing
              ∙ fill-gets io m₁ _ got.next got.buf got.count got.bytes got.returns got.content)
            (rest m₂ s₂ (shorter n got.bytes _ _ got.some_bytes got.split le) at₂))

  module _ (st : State io) (needle body wire a b : Bytes) (there : wire ≡ a ++ (needle ++ b))
      (waits : (m : HttpChunksRead io) (arg : Option io.SocketOutput)
        → m.state ≡ st
        → index_of needle m.buffer ≡ none
        → step io mem m arg ≡ fill io m arg)
      {P : Outcome (HttpChunksReadResult io) → Type 0}
      (found : (m : HttpChunksRead io) (s : t.Stream) (i : ℕ)
        → At st body wire m s
        → index_of needle m.buffer ≡ some i
        → Goes P m none s) where
    fetch_within :
        (n : ℕ) (m : HttpChunksRead io) (s : t.Stream)
        → length (t.pending s) ≤ n
        → At st body wire m s
        → Goes P m none s
    fetch_within zero m s le at = elim (Option-cases (index_of needle m.buffer)) [
      | inr (i, e) ↦ found m s i at e
      | inl e ↦
          let more = still_pending needle m.buffer (t.pending s) a b e (at.wire ∙ there) in
          let pos = length-pos (t.pending s) more in absurd (omega arith)
    ]
    fetch_within (suc n) m s le at = elim (Option-cases (index_of needle m.buffer)) [
      | inr (i, e) ↦ found m s i at e
      | inl e ↦
          fetch_once st needle body wire waits n m s le at e
            (still_pending needle m.buffer (t.pending s) a b e (at.wire ∙ there)) (fetch_within n)
    ]

    -- If the separator is buffered or still to come, the loop comes to a state that has it in the
    -- buffer.
    pub fetch : (m : HttpChunksRead io) (s : t.Stream) → At st body wire m s → Goes P m none s
    fetch m s at = fetch_within (length (t.pending s)) m s (omega arith) at
