-- ===== src/Rfc9112/Chunk/Reference/Equivalence.antt =====
-- The decoder, fed by a stream, decides as the reference does on the whole wire.
use io_http.Prelude.{
  ℕ, zero, suc, ◌+◌, ◌≤◌, ◌<◌, [], ◌++◌, ◌≡◌, refl, sym, ◌∙◌, ap, inl, inr, none, some, length,
  take, drop, arith, leb, leb→le, leb_false→lt, ◌==◌, Bool-cases, Option-cases, length-take,
  length-drop, length-drop, Option,
}
use io_http.Text.{Bytes}
use io_http.Text.Radix.{from_str_radix, from_str_radix-lt, usize_mod}
use io_http.Text.Search.{crlf, crlf_crlf, index_of}
use io_http.Text.Search.Found.{index_of-split, first_line-buffer}
use io_http.External.Memchr.{Memchr, MemchrLaws}
use io_http.External.Socket.{IoSocket}
use io_http.External.Socket.Transport.{Transport, SocketLaws}
use io_http.Coroutine.Drive.{done, stop, Drives-pass, Drives-drive, drive, Outcome}
use io_http.Rfc9112.Chunk.{
  chunk_size, trailer, HttpChunksRead, HttpChunksReadResult, step, input_of, new, extend,
}
use io_http.Rfc9112.Chunk.Fetch.{Goes, At, fetch}
use io_http.Rfc9112.Chunk.Lines.{step-chunk_size_line}
use io_http.Rfc9112.Chunk.Passes.{step-chunk_size_waits}
use io_http.Rfc9112.Chunk.Reference.{Decoded, size_text, decode_from, decode}
use io_http.Rfc9112.Chunk.Truncated.{run_dry}
use io_http.Rfc9112.Chunk.Reference.Decisions.{
  decode_from-line, decode_from-open, behind_line, behind_line-none, behind_line-zero,
  behind_line-large, behind_line-large_cut, behind_line-cut, behind_line-chunk,
}
use io_http.Rfc9112.Chunk.Reference.Pieces.{Agrees, read_end, read_cut, read_whole}
use io_http.Rfc9112.Chunk.Reference.Large.{read_large, read_large_cut}

module _ (io : IoSocket) (mem : Memchr) (t : Transport io) (first : MemchrLaws mem)
    (laws : SocketLaws io t) where
  -- A run that agrees with one decision agrees with an equal one.
  decided :
      (d d' : Decoded) (m : HttpChunksRead io) (s : t.Stream)
      → d ≡ d'
      → Goes io mem t laws (Agrees io d') m none s
      → Goes io mem t laws (Agrees io d) m none s
  decided d d' m s e g = rw e g

  -- Behind a line with its CRLF, `y` being what is buffered of it.
  read_line :
      (fuel : ℕ) (sofar line behind : Bytes) (o : Option ℕ)
      → from_str_radix (size_text line) 16 ≡ o
      → ((body wire : Bytes)
          → length wire < length behind
          → (m : HttpChunksRead io) (s : t.Stream) → At io mem t laws chunk_size body wire m s
          → Goes io mem t laws (Agrees io (decode_from fuel body wire)) m none s)
      → (m : HttpChunksRead io) (s : t.Stream) (y : Bytes) → m.state ≡ chunk_size
      → laws.Ready m.read
      → m.body ≡ sofar
      → m.buffer ≡ line ++ (crlf ++ y)
      → index_of crlf m.buffer ≡ some (length line)
      → y ++ t.pending s ≡ behind
      → Goes io mem t laws (Agrees io (behind_line fuel sofar line behind o)) m none s
  read_line fuel sofar line behind none f rest m s y st ready body b found e =
      decided _ _ m s (behind_line-none fuel sofar line behind)
        (done (stop (step-chunk_size_line io mem first line y m none none st b found f)) refl refl)
  read_line fuel sofar line behind (some n) f rest m s y st ready body b found e =
      let turn = step-chunk_size_line io mem first line y m none (some n) st b found f in
      elim (Bool-cases (n == 0)) [
        | inl zero_size ↦ decided _ _ m s (behind_line-zero fuel sofar line behind n zero_size) (
            Drives-pass _ _ _ (turn ∙ (rw zero_size)) (
              read_end io mem t first laws sofar (crlf ++ behind)
                (index_of crlf_crlf (crlf ++ behind)) refl
                (record m { buffer = crlf ++ y; state = trailer }) s
                (record {
                  state = refl;
                  ready = ready;
                  body = body;
                  wire = ap (λ x. crlf ++ x) e;
                })))
        | inr nonzero ↦ elim (Bool-cases (leb usize_mod (n + 2))) [
          | inl large ↦ elim (Bool-cases (leb (n + 2) (usize_mod + length behind))) [
            | inl there ↦
                let (m', starts, goes) =
                  read_large io mem t laws n behind m s y
                    (from_str_radix-lt (size_text line) 16 n f) (leb→le usize_mod (n + 2) large)
                    (leb→le (n + 2) (usize_mod + length behind) there) e in
                decided _ _ m s (behind_line-large fuel sofar line behind n nonzero large there)
                  (Drives-pass _ _ _ (turn ∙ (rw nonzero starts)) goes)
            | inr cut ↦
                let (m', starts, goes) =
                  read_large_cut io mem t laws n behind m s y
                    (from_str_radix-lt (size_text line) 16 n f) (leb→le usize_mod (n + 2) large)
                    (leb_false→lt (n + 2) (usize_mod + length behind) cut) e in
                decided _ _ m s (behind_line-large_cut fuel sofar line behind n nonzero large cut)
                  (Drives-pass _ _ _ (turn ∙ (rw nonzero starts)) goes)
          ]
          | inr small ↦
              let lt = leb_false→lt usize_mod (n + 2) small in
              elim (Bool-cases (leb (n + 2) (length behind))) [
                | inr cut ↦
                    let (m', starts, goes) =
                      read_cut io mem t first laws n behind m s y lt
                        (leb_false→lt (n + 2) (length behind) cut) e in
                    decided _ _ m s (behind_line-cut fuel sofar line behind n nonzero small cut)
                      (Drives-pass _ _ _ (turn ∙ (rw nonzero starts)) goes)
                | inl enough ↦
                    let (m', starts, goes) =
                      read_whole io mem t first laws n sofar behind lt
                        (leb→le (n + 2) (length behind) enough)
                        (rest (sofar ++ take n behind) (drop (n + 2) behind) (
                          omega (
                            arith,
                            length-drop (n + 2) behind,
                            leb→le (n + 2) (length behind) enough,
                          )))
                        m s y ready body e in
                    decided _ _ m s
                      (behind_line-chunk fuel sofar line behind n nonzero small enough)
                      (Drives-pass _ _ _ (turn ∙ (rw nonzero starts)) goes)
              ]
        ]
      ]

  decode_goes :
      (fuel : ℕ) (sofar wire : Bytes)
      → length wire < fuel
      → (m : HttpChunksRead io) (s : t.Stream) → At io mem t laws chunk_size sofar wire m s
      → Goes io mem t laws (Agrees io (decode_from fuel sofar wire)) m none s
  decode_goes zero sofar wire lt m s at = absurd (omega arith)
  decode_goes (suc fuel) sofar wire lt m s at = elim (Option-cases (index_of crlf wire)) [
    | inl e ↦ decided _ _ m s (decode_from-open fuel sofar wire e) (
        run_dry io mem t first laws chunk_size crlf sofar wire (step-chunk_size_waits io mem first)
          e (length (t.pending s)) m s (omega arith) at)
    | inr (i, e) ↦
        let (split, fits) = index_of-split crlf wire i e in
        let line = take i wire in
        let behind = drop (i + 2) wire in
        let long : length line ≡ i = omega (arith, length-take i wire) in
        let here : index_of crlf wire ≡ some (length line) = e ∙ ap some (sym long) in
        let o = from_str_radix (size_text line) 16 in
        let same = decode_from-line fuel sofar wire line behind o here split refl in
        let shorter = length-drop (i + 2) wire in
        decided _ _ m s same (
          fetch io mem t laws chunk_size crlf sofar wire line behind split
            (step-chunk_size_waits io mem first)
            (λ m' s' j at' found.
              let (y, front, coming, len) =
                first_line-buffer line behind m'.buffer (t.pending s') j
                  (ap (index_of crlf) (sym split) ∙ here) (at'.wire ∙ split) found in
              read_line fuel sofar line behind o refl
                (λ body rest_wire less m₂ s₂ at₂.
                  decode_goes fuel body rest_wire (omega arith) m₂ s₂ at₂)
                m' s' y at'.state at'.ready at'.body front (found ∙ ap some len) coming)
            m s at)
  ]

  pub decode_goes_new :
      (read : io.SocketRead) (seed : Bytes) (s : t.Stream)
      → laws.Ready read
      → Goes io mem t laws
          (Agrees io (decode (seed ++ t.pending s)))
          (extend io (new io read) seed)
          none
          s
  unfolding decode
  decode_goes_new read seed s ready =
      let wire = seed ++ t.pending s in
      decode_goes (suc (length wire)) [] wire (omega arith) (extend io (new io read) seed) s
        (unfold extend new in record { state = refl; ready = ready; body = refl; wire = refl })

  -- A new decoder whose reader is ready and whose buffer was extended with the first bytes, on a
  -- stream that delivers the others in pieces of any size and then ends, whatever the bytes are:
  -- the caller's loop ends, within some fuel and on every larger one, with the outcome that the
  -- reference decides on for all these bytes at once: the body, the error, or the panic on a chunk
  -- size that does not fit a `usize` with the CRLF behind the chunk.
  pub drive-decode :
      (read : io.SocketRead) (seed : Bytes) (s : t.Stream)
      → laws.Ready read
      → (o : Outcome (HttpChunksReadResult io)) × Agrees io (decode (seed ++ t.pending s)) o
        × (fuel : ℕ) × ((calls rounds : ℕ)
            → fuel ≤ calls
            → fuel ≤ rounds
            → drive
                (step io mem)
                (input_of io)
                t.handle
                calls
                rounds
                (extend io (new io read) seed)
                none
                s
              ≡ o)
  drive-decode read seed s ready =
      Drives-drive (step io mem) (input_of io) t.handle (decode_goes_new read seed s ready)
