-- ===== src/Text/Search/Found.antt =====
-- What a found occurrence says of the text: how it splits there, that more text behind it changes
-- nothing, and the part in front of a byte.
use mathlib.Core.Option.{get_or}
use io_http.Prelude.{
  ℕ, zero, suc, ◌+◌, ◌≤◌, List, [], ◌∷◌, ◌++◌, ◌≡◌, ◌≢◌, refl, sym, ap, ◌∙◌, append_assoc,
  append-injective, length-take, true, ◌&&◌, ◌==◌, Option, none, some, if◌then◌else◌, arith, length,
  take, drop, Option-cases, Bool-cases, inl, inr,
}
use native.Mathlib.Nat.{zero-add}
use io_http.Text.Search.{starts_with, later, crlf, index_of}

starts_with-split :
    (p s : List ℕ) → starts_with p s ≡ true → (s ≡ p ++ drop (length p) s) × (length p ≤ length s)
unfolding starts_with
starts_with-split [] s h = (refl, omega arith)
starts_with-split (c ∷ p) [] h = cc
starts_with-split (c ∷ p) (d ∷ s) h = ground (arith, starts_with-split p s)

starts_with-extend :
    (p s t : List ℕ) → length p ≤ length s → starts_with p (s ++ t) ≡ starts_with p s
unfolding starts_with
starts_with-extend [] s t h = refl
starts_with-extend (c ∷ p) [] t h = absurd (omega arith)
starts_with-extend (c ∷ p) (d ∷ s) t h =
    ap (λ b. d == c && b) (starts_with-extend p s t (omega arith))

later-eq-some : (o : Option ℕ) (i : ℕ) → later o ≡ some (suc i) → o ≡ some i
unfolding later
later-eq-some o i h = ground arith

later-ne-zero : (o : Option ℕ) → later o ≢ some 0
unfolding later
later-ne-zero o = ground arith

-- The text around an occurrence.
pub index_of-split :
    (p s : List ℕ) (i : ℕ)
    → index_of p s ≡ some i
    → (s ≡ take i s ++ (p ++ drop (i + length p) s)) × (i + length p ≤ length s)
unfolding index_of
index_of-split [] [] zero h = (refl, omega arith)
index_of-split [] [] (suc i) h = unfold starts_with in cc
index_of-split (q ∷ p) [] i h = unfold starts_with in cc
index_of-split p (c ∷ s) zero h = elim (Bool-cases (starts_with p (c ∷ s))) [
  | inl e ↦ rw zero-add (starts_with-split p (c ∷ s) e)
  | inr e ↦ absurd (later-ne-zero (index_of p s) (rw e at h))
]
index_of-split p (c ∷ s) (suc i) h = elim (Bool-cases (starts_with p (c ∷ s))) [
  | inl e ↦ let wrong = rw e at h in cc
  | inr e ↦
      let (split, fits) = index_of-split p s i (later-eq-some (index_of p s) i (rw e at h)) in
      let next : suc i + length p ≡ suc (i + length p) = omega arith in
      rw next (ap (λ x. c ∷ x) split, omega arith)
]

later-extend :
    (o o' : Option ℕ) (i : ℕ)
    → ((j : ℕ) → o ≡ some j → o' ≡ some j)
    → later o ≡ some i
    → later o' ≡ some i
unfolding later
later-extend none o' i longer h = cc
later-extend (some j) o' i longer h = rw (longer j refl) h

-- More text behind an occurrence leaves it the first one.
pub index_of-extend :
    (p s t : List ℕ) (i : ℕ) → index_of p s ≡ some i → index_of p (s ++ t) ≡ some i
unfolding index_of
index_of-extend [] [] [] i h = h
index_of-extend [] [] (d ∷ t) i h = unfold starts_with in h
index_of-extend (q ∷ p) [] t i h = unfold starts_with in cc
index_of-extend p (c ∷ s) t i h =
    let (split, fits) = index_of-split p (c ∷ s) i (unfold index_of in h) in
    let same = starts_with-extend p (c ∷ s) t (omega arith) in
    elim (Bool-cases (starts_with p (c ∷ s))) [
      | inl e ↦ rw (same, e) (rw e at h)
      | inr e ↦
          rw (same, e)
            (later-extend (index_of p s) (index_of p (s ++ t)) i
              (λ j found. index_of-extend p s t j found) (rw e at h))
    ]

-- What stands in front of the first `b`, or the whole text.
unfoldable pub before : ℕ → List ℕ → List ℕ
before b [] = []
before b (c ∷ s) = if c == b then [] else c ∷ before b s

pub take-index_of :
    (b : ℕ) (s : List ℕ) → take (get_or (index_of (b ∷ []) s) (length s)) s ≡ before b s
unfolding index_of before later starts_with
take-index_of b [] = refl
take-index_of b (c ∷ s) = ground (arith, take-index_of b s)

pub index_of-le_length : (b : ℕ) (s : List ℕ) → get_or (index_of (b ∷ []) s) (length s) ≤ length s
index_of-le_length b s = elim (Option-cases (index_of (b ∷ []) s)) [
  | inl e ↦ rw e (omega arith)
  | inr (i, e) ↦ let (split, fits) = index_of-split (b ∷ []) s i e in rw e (omega arith)
]

-- A line that is found in a part of the text, where it is the first line of the whole text.
pub first_line-buffer :
    (line behind buffer more : List ℕ) (i : ℕ)
    → index_of crlf (line ++ (crlf ++ behind)) ≡ some (length line)
    → buffer ++ more ≡ line ++ (crlf ++ behind)
    → index_of crlf buffer ≡ some i
    → (y : List ℕ) × (buffer ≡ line ++ (crlf ++ y)) × (y ++ more ≡ behind) × (i ≡ length line)
first_line-buffer line behind buffer more i first e found =
    let (split, fits) = index_of-split crlf buffer i found in
    let whole = ap (index_of crlf) (sym e) ∙ index_of-extend crlf buffer more i found in
    let here : i ≡ length line = cc in
    let y = drop (i + 2) buffer in
    let long : length (take i buffer) ≡ length line = omega (arith, length-take i buffer) in
    let texts : take i buffer ++ (crlf ++ (y ++ more)) ≡ line ++ (crlf ++ behind) =
      sym (append_assoc (take i buffer) (crlf ++ y) more) ∙ ap (λ b. b ++ more) (sym split) ∙ e in
    let (front, back) = append-injective (take i buffer) line _ _ long texts in
    (y, split ∙ ap (λ x. x ++ (crlf ++ y)) front, cc, here)
