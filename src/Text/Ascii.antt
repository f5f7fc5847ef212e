-- ===== src/Text/Ascii.antt =====
-- ASCII letter case, as `str::eq_ignore_ascii_case` and `str::to_lowercase` treat it.
use io_http.Prelude.{
  ℕ, ◌+◌, List, [], ◌∷◌, ◌≡◌, refl, ◌↔◌, Bool, true, false, ◌&&◌, ◌==◌, leb, if◌then◌else◌, arith,
}

-- `u8::to_ascii_lowercase`.
unfoldable pub to_ascii_lowercase : ℕ → ℕ
to_ascii_lowercase c = if leb b'A' c && leb c b'Z' then c + 32 else c

-- `str::to_lowercase` on an ASCII text, the only kind that the program lowers: header names come
-- from the parser, which refuses every name byte that is not an ASCII token character.
unfoldable pub to_lowercase : List ℕ → List ℕ
unfolding to_ascii_lowercase
to_lowercase [] = []
to_lowercase (c ∷ s) = to_ascii_lowercase c ∷ to_lowercase s

-- `str::eq_ignore_ascii_case`: equal lengths, and byte by byte equal up to the case of A to Z.
unfoldable pub eq_ignore_ascii_case : List ℕ → List ℕ → Bool
unfolding to_ascii_lowercase
eq_ignore_ascii_case [] [] = true
eq_ignore_ascii_case (a ∷ s) (b ∷ t) =
    to_ascii_lowercase a == to_ascii_lowercase b && eq_ignore_ascii_case s t
eq_ignore_ascii_case _ _ = false

-- Two texts compare equal without regard to case exactly when they are lowered to the same text.
pub eq_ignore_ascii_case_iff :
    (s t : List ℕ) → (eq_ignore_ascii_case s t ≡ true) ↔ (to_lowercase s ≡ to_lowercase t)
unfolding eq_ignore_ascii_case to_lowercase
eq_ignore_ascii_case_iff [] [] = ground arith
eq_ignore_ascii_case_iff [] (b ∷ t) = ground arith
eq_ignore_ascii_case_iff (a ∷ s) [] = ground arith
eq_ignore_ascii_case_iff (a ∷ s) (b ∷ t) = ground (arith, eq_ignore_ascii_case_iff s t)

pub to_lowercase_idem : (s : List ℕ) → to_lowercase (to_lowercase s) ≡ to_lowercase s
unfolding to_lowercase
to_lowercase_idem [] = refl
to_lowercase_idem (c ∷ s) = ground (arith, to_lowercase_idem s)

-- Lowering either side changes no comparison.
pub eq_ignore_ascii_case-to_lowercase :
    (s t : List ℕ) → eq_ignore_ascii_case (to_lowercase s) t ≡ eq_ignore_ascii_case s t
unfolding eq_ignore_ascii_case to_lowercase
eq_ignore_ascii_case-to_lowercase [] t = refl
eq_ignore_ascii_case-to_lowercase (a ∷ s) [] = refl
eq_ignore_ascii_case-to_lowercase (a ∷ s) (b ∷ t) =
    ground (arith, eq_ignore_ascii_case-to_lowercase s t)
