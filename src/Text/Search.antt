-- ===== src/Text/Search.antt =====
-- The leftmost occurrence of a byte sequence, as a reference for the searches of the memchr crate,
-- and its laws.
pub mod Found
use io_http.Prelude.{
  ℕ, suc, List, [], ◌∷◌, ◌++◌, ◌≡◌, ◌≢◌, refl, Bool, true, false, ◌&&◌, ◌==◌, Option, none, some,
  if◌then◌else◌, arith, All, length, Option-cases, Bool-cases, inl, inr,
}

pub starts_with : List ℕ → List ℕ → Bool
starts_with [] s = true
starts_with (p ∷ ps) [] = false
starts_with (p ∷ ps) (c ∷ s) = c == p && starts_with ps s

later : Option ℕ → Option ℕ
later none = none
later (some i) = some (suc i)

-- The index of the first occurrence of `needle`.
unfoldable pub index_of : List ℕ → List ℕ → Option ℕ
unfolding starts_with later
index_of needle [] = if starts_with needle [] then some 0 else none
index_of needle (c ∷ s) = if starts_with needle (c ∷ s) then some 0 else later (index_of needle s)

starts_with-append : (p s : List ℕ) → starts_with p (p ++ s) ≡ true
unfolding starts_with
starts_with-append [] s = refl
starts_with-append (c ∷ p) s = ground (arith, starts_with-append p s)

-- Where an occurrence stands, the search finds one.
pub index_of-append : (a needle b : List ℕ) → index_of needle (a ++ (needle ++ b)) ≢ none
unfolding index_of
index_of-append [] [] [] h = cc
index_of-append [] [] (c ∷ b) h = cc
index_of-append [] (n ∷ needle) b h = ground (arith, starts_with-append (n ∷ needle) b)
index_of-append (c ∷ a) needle b h = ground (arith, index_of-append a needle b)

starts_with-longer : (p s t : List ℕ) → starts_with p (s ++ t) ≡ false → starts_with p s ≡ false
unfolding starts_with
starts_with-longer [] s t h = h
starts_with-longer (c ∷ p) [] t h = refl
starts_with-longer (c ∷ p) (d ∷ s) t h = ground (arith, starts_with-longer p s t)

-- What does not occur in a text does not occur in its beginning.
pub index_of-none_prefix :
    (needle s t : List ℕ) → index_of needle (s ++ t) ≡ none → index_of needle s ≡ none
unfolding index_of later
index_of-none_prefix needle [] [] h = h
index_of-none_prefix needle [] (c ∷ t) h = elim (Bool-cases (starts_with needle [])) [
  | inr e ↦ rw e
  | inl e ↦ ground (arith, starts_with-longer needle [] (c ∷ t))
]
index_of-none_prefix needle (c ∷ s) t h =
    ground (arith, starts_with-longer needle (c ∷ s) t, index_of-none_prefix needle s t)

abbrev pub Lacks : ℕ → List ℕ → Type 0
Lacks c = All (λ d. d ≢ c)

abbrev pub crlf : List ℕ
crlf = 13 ∷ 10 ∷ []

abbrev pub crlf_crlf : List ℕ
crlf_crlf = 13 ∷ 10 ∷ 13 ∷ 10 ∷ []

index_of-later :
    (c : ℕ) (b : List ℕ) (i : ℕ)
    → c ≢ 13
    → index_of crlf (c ∷ b) ≡ some i
    → (j : ℕ) × (index_of crlf b ≡ some j) × (i ≡ suc j)
unfolding index_of
index_of-later c b i h f = elim (Option-cases (index_of crlf b)) [
  | inl e ↦ ground arith
  | inr (j, e) ↦ (j, e, ground arith)
]

-- A line without CR ends at the first CRLF that is found, also where the text is not all there yet.
pub index_of-line :
    (line buffer more rest : List ℕ) (i : ℕ)
    → Lacks 13 line
    → buffer ++ more ≡ line ++ (crlf ++ rest)
    → index_of crlf buffer ≡ some i
    → (y : List ℕ) × (buffer ≡ line ++ (crlf ++ y)) × (y ++ more ≡ rest) × (i ≡ length line)
index_of-line [] [] more rest i h e f = unfold index_of in ground arith
index_of-line [] (c ∷ []) more rest i h e f = unfold index_of in ground arith
index_of-line [] (c ∷ d ∷ y) more rest i h e f =
    (y, ground arith, ground arith, unfold index_of in ground arith)
index_of-line (l ∷ line) [] more rest i h e f = unfold index_of in ground arith
index_of-line (l ∷ line) (c ∷ b) more rest i (h, hs) e f =
    let same : c ≡ l = cc in
    let tails : b ++ more ≡ line ++ (crlf ++ rest) = cc in
    let (j, found, next) = index_of-later c b i (rw same h) f in
    let (y, split, remains, at) = index_of-line line b more rest j hs tails found in
    (y, cc, remains, omega arith)

-- The search for one byte, in a text that has it or not.
pub index_of-byte :
    (c : ℕ) (a b : List ℕ) → Lacks c a → index_of (c ∷ []) (a ++ c ∷ b) ≡ some (length a)
unfolding index_of
index_of-byte c [] b h = ground arith
index_of-byte c (d ∷ a) b (h, hs) = ground (arith, index_of-byte c a b hs)

pub index_of-Lacks : (c : ℕ) (a : List ℕ) → Lacks c a → index_of (c ∷ []) a ≡ none
unfolding index_of
index_of-Lacks c [] h = refl
index_of-Lacks c (d ∷ a) (h, hs) = ground (arith, index_of-Lacks c a hs)
