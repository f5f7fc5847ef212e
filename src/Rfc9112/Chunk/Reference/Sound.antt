-- ===== src/Rfc9112/Chunk/Reference/Sound.antt =====
-- What stands on a wire that is decoded to a body.
use io_http.Prelude.{
  ℕ, zero, suc, ◌+◌, ◌≤◌, ◌<◌, [], ◌++◌, ◌≡◌, refl, subst, sym, ◌∙◌, ap, inl, inr, Option, none,
  some, length, take, drop, arith, leb, leb→le, drop-drop, ◌==◌, Bool-cases, Option-cases,
  append_assoc, append-nil, length-take, length-drop, take-append-drop,
}
use io_http.Text.{Bytes}
use io_http.Text.Radix.{from_str_radix, usize_mod}
use io_http.Text.Search.{crlf, crlf_crlf, index_of}
use io_http.Text.Search.Found.{index_of-split}
use io_http.External.Memchr.{Memchr, MemchrLaws}
use io_http.External.Socket.{IoSocket}
use io_http.External.Socket.Transport.{Transport, SocketLaws}
use io_http.Coroutine.Drive.{drive, finished}
use io_http.Coroutine.More.{drive-more}
use io_http.Rfc9112.Chunk.{ok, step, input_of, new, extend}
use io_http.Rfc9112.Chunk.Reference.Bodies.{Accepted, ends, block, Accepted-length, Accepted-unique}
use io_http.Rfc9112.Chunk.Reference.Pieces.{Agrees}
use io_http.Rfc9112.Chunk.Reference.Equivalence.{drive-decode}
use io_http.Rfc9112.Chunk.Reference.{
  Decoded, whole, cut_line, cut_chunk, too_large, bad_size, size_text, trailer_ends, decode_from,
  decode,
}
use io_http.Rfc9112.Chunk.Reference.Decisions.{
  decode_from-line, decode_from-open, behind_line, behind_line-none, behind_line-zero,
  behind_line-large, behind_line-large_cut, behind_line-cut, behind_line-chunk,
}

trailer_ends-whole :
    (sofar body : Bytes) (o : Option ℕ)
    → trailer_ends sofar o ≡ whole body
    → (body ≡ sofar) × (i : ℕ) × (o ≡ some i)
unfolding trailer_ends
trailer_ends-whole sofar body none h = cc
trailer_ends-whole sofar body (some i) h = (cc, i, refl)

abbrev Grown : Bytes → Bytes → Bytes → Type 0
Grown sofar body wire = (b : Bytes) × (body ≡ sofar ++ b) × Accepted wire b

module _ (fuel : ℕ) (sofar body line behind wire : Bytes) (split : wire ≡ line ++ (crlf ++ behind))
    (here : index_of crlf wire ≡ some (length line))
    (rest : (more behind_chunk : Bytes)
      → decode_from fuel more behind_chunk ≡ whole body
      → Grown more body behind_chunk) where
  line-Accepted :
      (o : Option ℕ)
      → from_str_radix (size_text line) 16 ≡ o
      → behind_line fuel sofar line behind o ≡ whole body
      → Grown sofar body wire
  line-Accepted none f h = let e = behind_line-none fuel sofar line behind in cc
  line-Accepted (some n) f h = elim (Bool-cases (n == 0)) [
    | inl z ↦
        let e = behind_line-zero fuel sofar line behind n z in
        let (same, i, found) =
          trailer_ends-whole sofar body (index_of crlf_crlf (crlf ++ behind)) (sym e ∙ h) in
        let zero_size : n ≡ 0 = ground arith in
        (
          [],
          same ∙ sym (append-nil sofar),
          ends line behind i (f ∙ ap some zero_size) split here found refl,
        )
    | inr nz ↦ elim (Bool-cases (leb usize_mod (n + 2))) [
      | inl large ↦ elim (Bool-cases (leb (n + 2) (usize_mod + length behind))) [
        | inl there ↦ let e = behind_line-large fuel sofar line behind n nz large there in cc
        | inr cut ↦ let e = behind_line-large_cut fuel sofar line behind n nz large cut in cc
      ]
      | inr small ↦ elim (Bool-cases (leb (n + 2) (length behind))) [
        | inr cut ↦ let e = behind_line-cut fuel sofar line behind n nz small cut in cc
        | inl enough ↦
            let e = behind_line-chunk fuel sofar line behind n nz small enough in
            let le = leb→le (n + 2) (length behind) enough in
            let bytes = take n behind in
            let two = take 2 (drop n behind) in
            let tail = drop (n + 2) behind in
            let long : length bytes ≡ n = omega (arith, length-take n behind) in
            let pos : 0 < n = ground arith in
            let is_two : length two ≡ 2 =
              omega (arith, length-take 2 (drop n behind), length-drop n behind) in
            let parts : behind ≡ bytes ++ (two ++ tail) =
              sym (take-append-drop n behind)
              ∙ ap (λ x. bytes ++ x)
                  (sym (take-append-drop 2 (drop n behind))
                    ∙ ap (λ x. two ++ x) (drop-drop n 2 behind)) in
            let (b, grown, accepted) = rest (sofar ++ bytes) tail (sym e ∙ h) in
            (
              bytes ++ b,
              grown ∙ append_assoc sofar bytes b,
              block line bytes two tail b (f ∙ ap some (sym long)) (omega arith) is_two
                  (split ∙ ap (λ x. line ++ (crlf ++ x)) parts) here refl accepted,
            )
      ]
    ]
  ]

decode_from-Accepted :
    (fuel : ℕ) (sofar wire body : Bytes)
    → decode_from fuel sofar wire ≡ whole body
    → Grown sofar body wire
decode_from-Accepted zero sofar wire body h = unfold decode_from in cc
decode_from-Accepted (suc fuel) sofar wire body h = elim (Option-cases (index_of crlf wire)) [
  | inl e ↦ let open_end = decode_from-open fuel sofar wire e in cc
  | inr (i, e) ↦
      let (split, fits) = index_of-split crlf wire i e in
      let line = take i wire in
      let behind = drop (i + 2) wire in
      let long : length line ≡ i = omega (arith, length-take i wire) in
      let o = from_str_radix (size_text line) 16 in
      let same =
        decode_from-line fuel sofar wire line behind o (e ∙ ap some (sym long)) split refl in
      line-Accepted fuel sofar body line behind wire split (e ∙ ap some (sym long))
        (λ more tail k. decode_from-Accepted fuel more tail body k) o refl (sym same ∙ h)
]

decode-Accepted :
    (wire body : Bytes)
    → decode wire ≡ whole body
    → Accepted wire body
      × ((other : Bytes) → Accepted wire other → other ≡ body)
      × (length body ≤ length wire)
unfolding decode
decode-Accepted wire body h =
    let (b, e, accepted) = decode_from-Accepted (suc (length wire)) [] wire body h in
    let accepted' : Accepted wire body = rw e accepted in
    (accepted', λ other a. Accepted-unique a accepted', Accepted-length accepted')

agreed_body :
    (io : IoSocket) (d : Decoded) (body : Bytes) → Agrees io d (finished (ok body)) → d ≡ whole body
agreed_body io (whole b) body h = cc
agreed_body io cut_line body h = cc
agreed_body io cut_chunk body (e, h) = cc
agreed_body io too_large body h = cc
agreed_body io (bad_size text) body h = cc

module _ (io : IoSocket) (mem : Memchr) (t : Transport io) (first : MemchrLaws mem)
    (laws : SocketLaws io t) where
  -- Where the caller's loop over a new decoder, whose reader is ready and whose buffer was extended
  -- with the first bytes, ends with a body, within any fuel, this body is the data of the chunks on
  -- the wire in order, nothing added or left out: each size line ends at the first CRLF, up to a
  -- semicolon it reads as the size of the data behind it, and two bytes, whichever they are, follow the
  -- data. No other body is that of the wire, and the body is no longer than the wire.
  pub drive-Accepted :
      (read : io.SocketRead) (seed body : Bytes) (s : t.Stream) (calls rounds : ℕ)
      → laws.Ready read
      → drive
          (step io mem)
          (input_of io)
          t.handle
          calls
          rounds
          (extend io (new io read) seed)
          none
          s
        ≡ finished (ok body)
      → Accepted (seed ++ t.pending s) body
        × ((other : Bytes) → Accepted (seed ++ t.pending s) other → other ≡ body)
        × (length body ≤ length (seed ++ t.pending s))
  drive-Accepted read seed body s calls rounds ready h =
      let wire = seed ++ t.pending s in
      let (o, agrees, fuel, k) = drive-decode io mem t first laws read seed s ready in
      let m = extend io (new io read) seed in
      let late =
        drive-more (step io mem) (input_of io) t.handle calls (calls + fuel) rounds (rounds + fuel)
          m none s (ok body) (omega arith) (omega arith) h in
      let same : o ≡ finished (ok body) =
        sym (k (calls + fuel) (rounds + fuel) (omega arith) (omega arith)) ∙ late in
      let agrees' : Agrees io (decode wire) (finished (ok body)) =
        subst (Agrees io (decode wire)) same agrees in
      decode-Accepted wire body (agreed_body io (decode wire) body agrees')
