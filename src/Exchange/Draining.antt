-- ===== src/Exchange/Draining.antt =====
-- The phase that reads a body up to the end of the stream, under the caller's loop.
use io_http.Prelude.{
  List-cases, ℕ, zero, suc, ◌≤◌, [], ◌++◌, ◌≡◌, refl, sym, ◌∙◌, ap, inl, inr, Option, none, some,
  length, arith, append_assoc, append-nil, length-append, length-pos,
}
use io_http.Text.{Bytes}
use io_http.External.Socket.{IoSocket, SocketReadToEndResult}
use io_http.External.Socket.Transport.{Transport}
use io_http.External.Socket.Runtime.{RuntimeLaws}
use io_http.Exchange.Machine.{Machine, Drainer, Finishes, stops_now, asks_first}

module _ {io : IoSocket} {State Result : Type 0} (m : Machine io State Result) (t : Transport io)
    (runtime : RuntimeLaws io t) (d : Drainer m) (body : Bytes) where
  abbrev Answers : io.SocketReadToEnd → Option io.SocketOutput → t.Stream → Type 0
  Answers r arg s = Finishes m t (λ x. x ≡ d.answer body) (d.at r) arg s

  drained :
      (r : io.SocketReadToEnd) (input : io.SocketInput) (have : Bytes) (s : t.Stream)
      → runtime.Awaiting r input have
      → have ++ t.pending s ≡ body
      → t.pending s ≡ []
      → Answers r (some (t.handle s input).1) (t.handle s input).0
  drained r input have s waiting e all =
      let whole : have ≡ body = sym (append-nil have) ∙ sym (ap (λ x. have ++ x) all) ∙ e in
      let (next, done) = runtime.to_end_ends r input have s waiting all in
      let (left, ends) =
        d.ends _ r next body (done ∙ ap (λ x. (next, SocketReadToEndResult.ok x)) whole) in
      stops_now m t 0 (λ fuel k. ends fuel) (d.answer_ends body) refl

  -- A reader to the end that waits and has the bytes that came in so far.
  drain :
      (n : ℕ) (r : io.SocketReadToEnd) (input : io.SocketInput) (have : Bytes) (s : t.Stream)
      → length (t.pending s) ≤ n
      → runtime.Awaiting r input have
      → have ++ t.pending s ≡ body
      → Answers r (some (t.handle s input).1) (t.handle s input).0
  drain zero r input have s le waiting e = elim (List-cases (t.pending s)) [
    | inl all ↦ drained r input have s waiting e all
    | inr left ↦ let pos = length-pos (t.pending s) left in absurd (omega arith)
  ]
  drain (suc n) r input have s le waiting e = elim (List-cases (t.pending s)) [
    | inl all ↦ drained r input have s waiting e all
    | inr left ↦
        let got = runtime.to_end_gets r input have s waiting left in
        let s' = (t.handle s input).0 in
        let shorter = ap length got.split in
        let parts = length-append got.bytes (t.pending s') in
        let pos = length-pos got.bytes got.some_bytes in
        asks_first m t 0 (λ fuel k. d.asks fuel _ r got.next got.input' got.returns)
          (drain n got.next got.input' (have ++ got.bytes) s' (omega arith) got.awaits
            (append_assoc have got.bytes (t.pending s') ∙ ap (λ x. have ++ x) (sym got.split) ∙ e))
  ]

  pub drains :
      (seed : Bytes) (s : t.Stream)
      → seed ++ t.pending s ≡ body
      → Answers (io.to_end_extend io.to_end_new seed) none s
  drains seed s e =
      let r = io.to_end_extend io.to_end_new seed in
      let draining = runtime.extend_draining io.to_end_new [] seed runtime.new_draining in
      let (next, i, asks, waiting) = runtime.to_end_asks r seed draining in
      asks_first m t 0 (λ fuel k. d.asks fuel _ r next i asks)
        (drain (length (t.pending s)) next i seed s (omega arith) waiting e)
