-- ===== src/Exchange/Heading.antt =====
-- The phase that reads a head, under the caller's loop: up to the read that brings its last byte, or
-- up to the end of a stream that breaks off in it.
use io_http.Prelude.{
  List-cases, ℕ, zero, suc, ◌≤◌, ◌<◌, [], ◌++◌, ◌≡◌, ◌≢◌, refl, sym, ◌∙◌, ap, inl, inr, Option,
  none, some, length, arith, ltb, Bool-cases, ltb→lt, ltb_false→le, append_assoc, length-append,
  length-pos, append-cut,
}
use io_http.Text.{Bytes}
use io_http.External.Httparse.{Httparse, IsHead}
use io_http.External.Socket.{IoSocket}
use io_http.External.Socket.Transport.{Transport, SocketLaws, Reads}
use io_http.Rfc9110.Headers.{Headers}
use io_http.Exchange.Machine.{Machine, HeadReader, Finishes, stops_now, asks_first, passes}

module _ {io : IoSocket} {State Result : Type 0} (m : Machine io State Result) (t : Transport io)
    (laws : SocketLaws io t) {parser : Httparse} {cut : Result} (h : HeadReader m parser cut)
    (head : Bytes) {version code : Option ℕ} {lines : Headers}
    (is_head : IsHead parser head version code lines) where
  -- A read that brings some of the head and not its last byte: the next pass reads again.
  goes_on :
      {P : Result → Type 0} (read : io.SocketRead) (input : io.SocketInput) (headers more : Bytes)
      (s : t.Stream) (got : Reads io t laws.Ready read input s)
      → (headers ++ got.bytes) ++ more ≡ head
      → more ≢ []
      → Finishes m t P
          (h.at (io.read_replace got.next got.buf) (headers ++ got.bytes))
          none
          (t.handle s input).0
      → Finishes m t P (h.at read headers) (some (t.handle s input).1) (t.handle s input).0
  goes_on read input headers more s got e ne = passes m t (λ fuel.
      h.more fuel _ read got.next headers got.bytes got.buf got.count got.returns got.content
        (is_head.asks_more (headers ++ got.bytes) more e ne))

  module _ {P : Result → Type 0} (payload : Bytes)
      -- What follows the read that brings the last byte, and the first bytes of the payload.
      (ends : (read : io.SocketRead) (input : io.SocketInput) (headers seed : Bytes) (s : t.Stream)
          (got : Reads io t laws.Ready read input s)
        → headers ++ got.bytes ≡ head ++ seed
        → seed ++ t.pending (t.handle s input).0 ≡ payload
        → Finishes m t P (h.at read headers) (some (t.handle s input).1) (t.handle s input).0) where
    pub head_runs :
        (n : ℕ) (read : io.SocketRead) (headers : Bytes) (s : t.Stream)
        → length (t.pending s) ≤ n
        → laws.Ready read
        → headers ++ t.pending s ≡ head ++ payload
        → length headers < length head
        → Finishes m t P (h.at read headers) none s
    head_runs zero read headers s le ready e short =
        let sum = length-append headers (t.pending s) in
        let total = length-append head payload in let same = ap length e in absurd (omega arith)
    head_runs (suc n) read headers s le ready e short =
        let sum = length-append headers (t.pending s) in
        let total = length-append head payload in
        let same = ap length e in
        let (r, input, asks, asked) = laws.read_asks read ready in
        let ne : t.pending s ≢ [] = λ none_left. let gone = ap length none_left in omega arith in
        let got = laws.read_gets r input s asked ne in
        let s' = (t.handle s input).0 in
        let shorter = ap length got.split in
        let parts = length-append got.bytes (t.pending s') in
        let pos = length-pos got.bytes got.some_bytes in
        let e' : (headers ++ got.bytes) ++ t.pending s' ≡ head ++ payload =
          append_assoc headers got.bytes (t.pending s')
          ∙ ap (λ x. headers ++ x) (sym got.split)
          ∙ e in
        asks_first m t 0 (λ fuel k. h.asks fuel none read r headers input asks)
          (elim (Bool-cases (ltb (length (headers ++ got.bytes)) (length head))) [
            | inl small ↦
                let lt = ltb→lt (length (headers ++ got.bytes)) (length head) small in
                let (more, front, left) =
                  append-cut head (headers ++ got.bytes) payload (t.pending s') (omega arith)
                    (sym e') in
                goes_on r input headers more s got (sym front)
                  (λ none_left.
                    let whole =
                      ap length (front ∙ ap (λ x. (headers ++ got.bytes) ++ x) none_left) in
                    let same_length = length-append (headers ++ got.bytes) [] in omega arith)
                  (head_runs n (io.read_replace got.next got.buf) (headers ++ got.bytes) s'
                    (omega arith) got.ready e' lt)
            | inr big ↦
                let (seed, front, left) =
                  append-cut (headers ++ got.bytes) head (t.pending s') payload
                    (ltb_false→le (length (headers ++ got.bytes)) (length head) big) e' in
                ends r input headers seed s got front left
          ])

  module _ (missing : Bytes) (some_missing : missing ≢ []) where
    pub cut_runs :
        (n : ℕ) (read : io.SocketRead) (headers : Bytes) (s : t.Stream)
        → length (t.pending s) < n
        → laws.Ready read
        → headers ++ (t.pending s ++ missing) ≡ head
        → Finishes m t (λ r. r ≡ cut) (h.at read headers) none s
    cut_runs zero read headers s le ready e = absurd (omega arith)
    cut_runs (suc n) read headers s le ready e =
        let (r, input, asks, asked) = laws.read_asks read ready in
        let s' = (t.handle s input).0 in
        asks_first m t 0 (λ fuel k. h.asks fuel none read r headers input asks)
          (elim (List-cases (t.pending s)) [
            | inl all ↦
                let (next, ended) = laws.read_ends r input s asked all in
                stops_now m t 0 (λ fuel k. h.eof fuel _ r next headers ended) h.cut_ends refl
            | inr ne ↦
                let got = laws.read_gets r input s asked ne in
                let shorter = ap length got.split in
                let parts = length-append got.bytes (t.pending s') in
                let pos = length-pos got.bytes got.some_bytes in
                let more = length-append (t.pending s') missing in
                let left = length-pos missing some_missing in
                let e' : (headers ++ got.bytes) ++ (t.pending s' ++ missing) ≡ head =
                  append_assoc headers got.bytes (t.pending s' ++ missing)
                  ∙ ap (λ x. headers ++ x)
                      (sym (append_assoc got.bytes (t.pending s') missing)
                        ∙ ap (λ x. x ++ missing) (sym got.split))
                  ∙ e in
                goes_on r input headers (t.pending s' ++ missing) s got e'
                  (λ none_left. let gone = ap length none_left in omega arith)
                  (cut_runs n (io.read_replace got.next got.buf) (headers ++ got.bytes) s'
                    (omega arith) got.ready e')
          ])
