-- ===== src/Text/Radix.antt =====
-- `usize::from_str_radix` and the decimal print of a `usize`; `usize` has 64 bits.
use mathlib.Core.List.{cons-ne-nil, concat-ne-nil}
use io_http.Prelude.{
  All, All-append, ltb→lt, ltb_false→le, ==_iff, ◌∙◌, append_assoc, append-nil, ℕ, zero, suc, ◌+◌,
  ◌-◌, ◌*◌, ◌/◌, ◌%◌, ◌^◌, ◌≤◌, ◌<◌, List, [], ◌∷◌, ◌++◌, ◌≡◌, ◌≢◌, refl, ◌&&◌, ◌==◌, leb, ltb,
  Option, none, some, if◌then◌else◌, arith, Bool-cases, inl, inr,
}

abbrev pub usize_mod : ℕ
usize_mod = 2 ^ 64

-- `char::to_digit`, for a radix of at most 16.
unfoldable pub to_digit : ℕ → ℕ → Option ℕ
to_digit radix c =
    let d =
      if leb b'0' c && leb c b'9'
      then c - b'0'
      else if leb b'a' c && leb c b'z'
      then c - b'a' + 10
      else if leb b'A' c && leb c b'Z'
      then c - b'A' + 10
      else radix in
    if ltb d radix then some d else none

-- The digit loop: a checked multiplication, the digit, a checked addition.
unfoldable pub digits_from : ℕ → ℕ → List ℕ → Option ℕ
digits_from radix acc [] = some acc
digits_from radix acc (c ∷ s) = elim (to_digit radix c) [
  | none ↦ none
  | some d ↦ if ltb (acc * radix + d) usize_mod then digits_from radix (acc * radix + d) s else none
]

-- One leading `+` is allowed in front of at least one digit; an empty text is an error.
unfoldable pub from_str_radix : List ℕ → ℕ → Option ℕ
unfolding digits_from to_digit
from_str_radix [] radix = none
from_str_radix (c ∷ []) radix = digits_from radix 0 (c ∷ [])
from_str_radix (c ∷ d ∷ s) radix =
    if c == b'+' then digits_from radix 0 (d ∷ s) else digits_from radix 0 (c ∷ d ∷ s)

hex_sizes :
    (from_str_radix (b'1' ∷ b'a' ∷ b'F' ∷ []) 16 ≡ some 431)
    × (from_str_radix (b'+' ∷ b'5' ∷ []) 16 ≡ some 5)
    × (from_str_radix (b'+' ∷ []) 16 ≡ none)
    × (from_str_radix (b'5' ∷ b' ' ∷ []) 16 ≡ none)
unfolding from_str_radix
hex_sizes = (refl, refl, refl, refl)

digits_from-lt :
    (radix acc : ℕ) (s : List ℕ) (n : ℕ)
    → acc < usize_mod
    → digits_from radix acc s ≡ some n
    → n < usize_mod
unfolding digits_from
digits_from-lt radix acc [] n h e = ground arith
digits_from-lt radix acc (c ∷ s) n h e =
    elim (to_digit radix c)
        as (λ o.
          (elim o [
            | none ↦ none
            | some d ↦
                if ltb (acc * radix + d) usize_mod
                then digits_from radix (acc * radix + d) s
                else none
          ])
            ≡ some n
          → n < usize_mod) [
            | none ↦ λ e'. ground arith
            | some d ↦ λ e'. ground (arith, digits_from-lt radix (acc * radix + d) s n)
          ]
      e

-- What is parsed fits a `usize`.
pub from_str_radix-lt : (s : List ℕ) (radix n : ℕ) → from_str_radix s radix ≡ some n → n < usize_mod
unfolding from_str_radix
from_str_radix-lt [] radix n h = ground arith
from_str_radix-lt (c ∷ []) radix n h = digits_from-lt radix 0 (c ∷ []) n (omega arith) h
from_str_radix-lt (c ∷ d ∷ s) radix n h = elim (Bool-cases (c == b'+')) [
  | inl e ↦ digits_from-lt radix 0 (d ∷ s) n (omega arith) (rw e at h)
  | inr e ↦ digits_from-lt radix 0 (c ∷ d ∷ s) n (omega arith) (rw e at h)
]

-- `format!("{}", n)`: the digits of `n`, the last one written last. Each round divides by ten, so
-- `n` more rounds are enough.
digits : ℕ → ℕ → List ℕ
digits zero n = (b'0' + n % 10) ∷ []
digits (suc fuel) n =
    let front = digits fuel (n / 10) in
    if ltb n 10 then (b'0' + n) ∷ [] else front ++ (b'0' + n % 10) ∷ []

unfoldable pub to_decimal : ℕ → List ℕ
unfolding digits
to_decimal n = digits n n

abbrev pub IsDigit : ℕ → Type 0
IsDigit c = (b'0' ≤ c) × (c ≤ b'9')

digits-IsDigit : (fuel n : ℕ) → All IsDigit (digits fuel n)
unfolding digits
digits-IsDigit zero n = omega arith
digits-IsDigit (suc fuel) n = elim (Bool-cases (ltb n 10)) [
  | inl e ↦ rw e (let small : n < 10 = ltb→lt n 10 e in omega arith)
  | inr e ↦
      rw e
        (All-append IsDigit (digits fuel (n / 10)) _ (digits-IsDigit fuel (n / 10)) (omega arith))
]

-- The printed length of a body is made of digits alone.
pub to_decimal-IsDigit : (n : ℕ) → All IsDigit (to_decimal n)
unfolding to_decimal
to_decimal-IsDigit n = digits-IsDigit n n

digits-ne-nil : (fuel n : ℕ) → digits fuel n ≢ []
unfolding digits
digits-ne-nil zero n = cons-ne-nil _ _
digits-ne-nil (suc fuel) n = elim (Bool-cases (ltb n 10)) [
  | inl e ↦ rw e (cons-ne-nil _ _)
  | inr e ↦ rw e (concat-ne-nil _ (digits fuel (n / 10)))
]

to_digit-digit : (d : ℕ) → d < 10 → to_digit 10 (b'0' + d) ≡ some d
unfolding to_digit
to_digit-digit d h = ground arith

digits_from_last :
    (n : ℕ) (rest : List ℕ)
    → n < usize_mod
    → digits_from 10 (n / 10) ((b'0' + n % 10) ∷ rest) ≡ digits_from 10 n rest
unfolding digits_from
digits_from_last n rest h =
    let same : n / 10 * 10 + n % 10 ≡ n = omega arith in
    ground (arith, to_digit-digit (n % 10) (omega arith), same)

digits_from-digits :
    (fuel n : ℕ) (rest : List ℕ)
    → n ≤ fuel
    → n < usize_mod
    → digits_from 10 0 (digits fuel n ++ rest) ≡ digits_from 10 n rest
unfolding digits
digits_from-digits zero n rest h lt =
    let z : n / 10 ≡ 0 = omega arith in rw (← z) (digits_from_last n rest lt)
digits_from-digits (suc fuel) n rest h lt = elim (Bool-cases (ltb n 10)) [
  | inl e ↦
      let small : n < 10 = ltb→lt n 10 e in
      let z : n / 10 ≡ 0 = omega arith in
      let m : n % 10 ≡ n = omega arith in rw e (rw (z, m) at (digits_from_last n rest lt))
  | inr e ↦
      rw (e, append_assoc)
        (digits_from-digits fuel (n / 10) ((b'0' + n % 10) ∷ rest)
            (let big : 10 ≤ n = ltb_false→le n 10 e in omega arith) (omega arith)
          ∙ digits_from_last n rest lt)
]

from_str_radix-digits :
    (s : List ℕ) → s ≢ [] → All IsDigit s → from_str_radix s 10 ≡ digits_from 10 0 s
unfolding from_str_radix
from_str_radix-digits [] h a = absurd (h refl)
from_str_radix-digits (c ∷ []) h a = refl
from_str_radix-digits (c ∷ d ∷ s) h a = elim (Bool-cases (c == b'+')) [
  | inl e ↦ let plus : c ≡ b'+' = (==_iff c b'+').0 e in absurd (omega arith)
  | inr e ↦ rw e
]

-- A `usize` is read back from its decimal print.
pub from_str_radix-to_decimal : (n : ℕ) → n < usize_mod → from_str_radix (to_decimal n) 10 ≡ some n
unfolding to_decimal digits_from
from_str_radix-to_decimal n h =
    from_str_radix-digits (digits n n) (digits-ne-nil n n) (digits-IsDigit n n)
    ∙ (rw append-nil at (digits_from-digits n n [] (omega arith) h))

pub to_decimal-ne-nil : (n : ℕ) → to_decimal n ≢ []
unfolding to_decimal
to_decimal-ne-nil n = digits-ne-nil n n
