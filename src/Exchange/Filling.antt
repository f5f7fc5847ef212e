-- ===== src/Exchange/Filling.antt =====
-- The phase that reads a body of a given length, under the caller's loop: the whole body, or the
-- error where the stream ends too early.
use io_http.Prelude.{
  List-cases, ℕ, zero, suc, ◌≤◌, ◌<◌, [], ◌++◌, ◌≡◌, ◌≢◌, refl, sym, ◌∙◌, ap, inl, inr, Option,
  none, some, length, arith, append_assoc, append-nil, length-append, length-pos,
}
use io_http.Text.{Bytes}
use io_http.External.Socket.{IoSocket, SocketReadExactResult}
use io_http.External.Socket.Transport.{Transport, SocketLaws}
use io_http.Exchange.Machine.{Machine, Filler, Finishes, stops_now, asks_first}

module _ {io : IoSocket} {State Result : Type 0} (m : Machine io State Result) (t : Transport io)
    (laws : SocketLaws io t) (f : Filler m) where
  module _ (body : Bytes) where
    abbrev Answers : io.SocketReadExact → Option io.SocketOutput → t.Stream → Type 0
    Answers r arg s = Finishes m t (λ x. x ≡ f.answer body) (f.at r) arg s

    -- The read that ends.
    full :
        (arg : Option io.SocketOutput) (r next : io.SocketReadExact) (s : t.Stream)
        → io.exact_resume r arg ≡ (next, SocketReadExactResult.ok body)
        → Answers r arg s
    full arg r next s e =
        let (left, ends) = f.ends arg r next body e in
        stops_now m t 0 (λ fuel k. ends fuel) (f.answer_ends body) refl

    -- An exact read that waits and has the first of the bytes that are to come.
    fill :
        (n : ℕ) (r : io.SocketReadExact) (input : io.SocketInput) (have : Bytes) (s : t.Stream)
        → length (t.pending s) ≤ n
        → laws.Waiting r input (length body) have
        → have ++ t.pending s ≡ body
        → t.pending s ≢ []
        → Answers r (some (t.handle s input).1) (t.handle s input).0
    fill zero r input have s le waiting e ne =
        let pos = length-pos (t.pending s) ne in absurd (omega arith)
    fill (suc n) r input have s le waiting e ne =
        let got = laws.exact_gets r input (length body) have s waiting ne in
        let s' = (t.handle s input).0 in
        let e' : (have ++ got.bytes) ++ t.pending s' ≡ body =
          append_assoc have got.bytes (t.pending s') ∙ ap (λ x. have ++ x) (sym got.split) ∙ e in
        let sum = length-append (have ++ got.bytes) (t.pending s') in
        let same = ap length e' in
        let shorter = ap length got.split in
        let parts = length-append got.bytes (t.pending s') in
        let pos = length-pos got.bytes got.some_bytes in
        elim (List-cases (t.pending s')) [
          | inl all ↦
              let whole : have ++ got.bytes ≡ body =
                sym (append-nil _) ∙ sym (ap (λ x. (have ++ got.bytes) ++ x) all) ∙ e' in
              full _ r got.next s' (
                got.full (ap length whole) ∙ ap (λ x. (got.next, SocketReadExactResult.ok x)) whole)
          | inr left ↦
              let some_left = length-pos (t.pending s') left in
              let (i, asks, waiting') = got.more (omega arith) in
              asks_first m t 0 (λ fuel k. f.asks fuel _ r got.next i asks)
                (fill n got.next i (have ++ got.bytes) s' (omega arith) waiting' e' left)
        ]

    pub fills :
        (seed : Bytes) (s : t.Stream)
        → seed ++ t.pending s ≡ body
        → Answers (io.exact_extend (io.exact_new (length body)) seed) none s
    fills seed s e =
        let sum = length-append seed (t.pending s) in
        let same = ap length e in
        let r = io.exact_extend (io.exact_new (length body)) seed in
        let filling =
          laws.extend_filling _ (length body) [] seed (laws.new_filling (length body))
            (omega arith) in
        elim (List-cases (t.pending s)) [
          | inl all ↦
              let whole : seed ≡ body = sym (append-nil seed) ∙ sym (ap (λ x. seed ++ x) all) ∙ e in
              let (next, done) = laws.exact_full r (length body) seed filling (ap length whole) in
              full none r next s (done ∙ ap (λ x. (next, SocketReadExactResult.ok x)) whole)
          | inr left ↦
              let pos = length-pos (t.pending s) left in
              let (next, i, asks, waiting) =
                laws.exact_asks r (length body) seed filling (omega arith) in
              asks_first m t 0 (λ fuel k. f.asks fuel _ r next i asks)
                (fill (length (t.pending s)) next i seed s (omega arith) waiting e left)
        ]

  module _ (target : ℕ) where
    abbrev pub Starves : Result → Type 0
    Starves x = (e : io.SocketReadExactError) × (x ≡ f.failure e)

    -- An exact read that waits for more than comes.
    starve :
        (n : ℕ) (r : io.SocketReadExact) (input : io.SocketInput) (have : Bytes) (s : t.Stream)
        → length (t.pending s) < n
        → laws.Waiting r input target have
        → length (have ++ t.pending s) < target
        → Finishes m t Starves (f.at r) (some (t.handle s input).1) (t.handle s input).0
    starve zero r input have s le waiting lt = absurd (omega arith)
    starve (suc n) r input have s le waiting lt =
        let s' = (t.handle s input).0 in
        let sum = length-append have (t.pending s) in
        elim (List-cases (t.pending s)) [
          | inl all ↦
              let (next, e, fails) =
                laws.exact_ends r input target have s waiting (omega arith) all in
              let (left, errs) = f.errs _ r next e fails in
              stops_now m t 0 (λ fuel k. errs fuel) (f.failure_ends e) (e, refl)
          | inr ne ↦
              let got = laws.exact_gets r input target have s waiting ne in
              let shorter = ap length got.split in
              let parts = length-append got.bytes (t.pending s') in
              let pos = length-pos got.bytes got.some_bytes in
              let grown = length-append have got.bytes in
              let all = length-append (have ++ got.bytes) (t.pending s') in
              let (i, asks, waiting') = got.more (omega arith) in
              asks_first m t 0 (λ fuel k. f.asks fuel _ r got.next i asks)
                (starve n got.next i (have ++ got.bytes) s' (omega arith) waiting' (omega arith))
        ]

    pub starves :
        (seed : Bytes) (s : t.Stream)
        → length (seed ++ t.pending s) < target
        → Finishes m t Starves (f.at (io.exact_extend (io.exact_new target) seed)) none s
    starves seed s lt =
        let sum = length-append seed (t.pending s) in
        let r = io.exact_extend (io.exact_new target) seed in
        let filling =
          laws.extend_filling _ target [] seed (laws.new_filling target) (omega arith) in
        let (next, i, asks, waiting) = laws.exact_asks r target seed filling (omega arith) in
        asks_first m t 0 (λ fuel k. f.asks fuel _ r next i asks)
          (starve (suc (length (t.pending s))) next i seed s (omega arith) waiting lt)
