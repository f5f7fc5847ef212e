-- ===== src/Text/Trim.antt =====
-- `str::trim`: the characters with the Unicode property White_Space, in their UTF-8 forms of one,
-- two and three bytes, are dropped at both ends.
use mathlib.Core.List.{reverse-cons, reverse-reverse}
use io_http.Prelude.{
  ℕ, List, [], ◌∷◌, ◌≡◌, refl, Bool, ◌&&◌, ◌||◌, ◌==◌, leb, if◌then◌else◌, arith, reverse, All,
  All-append,
}
use io_http.Text.Radix.{IsDigit}

white1 : ℕ → Bool
white1 a = leb 9 a && leb a 13 || a == 32

white2 : ℕ → ℕ → Bool
white2 a b = a == 0xc2 && (b == 0x85 || b == 0xa0)

white3 : ℕ → ℕ → ℕ → Bool
white3 a b c =
    a == 0xe1 && (b == 0x9a && c == 0x80)
    || a == 0xe2 && (b == 0x80 && (leb 0x80 c && leb c 0x8a || c == 0xa8 || c == 0xa9 || c == 0xaf))
    || a == 0xe2 && (b == 0x81 && c == 0x9f)
    || a == 0xe3 && (b == 0x80 && c == 0x80)

-- Drops white space in front of a text that is read forwards or backwards: `two` and `three` know
-- the order of a character's bytes.
module _ (two : ℕ → ℕ → Bool) (three : ℕ → ℕ → ℕ → Bool) where
  skip : List ℕ → List ℕ
  skip [] = []
  skip (a ∷ []) = if white1 a then [] else a ∷ []
  skip (a ∷ b ∷ []) =
      let one = skip (b ∷ []) in if white1 a then one else if two a b then [] else a ∷ b ∷ []
  skip (a ∷ b ∷ c ∷ s) =
      let after_one = skip (b ∷ c ∷ s) in
      let after_two = skip (c ∷ s) in
      let after_three = skip s in
      if white1 a
      then after_one
      else if two a b
      then after_two
      else if three a b c
      then after_three
      else a ∷ b ∷ c ∷ s

unfoldable pub trim : List ℕ → List ℕ
unfolding skip white1 white2 white3
trim s =
    let front = skip white2 white3 s in
    reverse (skip (λ a b. white2 b a) (λ a b c. white3 c b a) (reverse front))

trimmed :
    (trim (b' ' ∷ b'4' ∷ b'2' ∷ 9 ∷ []) ≡ b'4' ∷ b'2' ∷ [])
    × (trim (0xe2 ∷ 0x80 ∷ 0x83 ∷ b'7' ∷ 0xc2 ∷ 0xa0 ∷ []) ≡ b'7' ∷ [])
    × (trim (b'1' ∷ b' ' ∷ b'2' ∷ []) ≡ b'1' ∷ b' ' ∷ b'2' ∷ [])
unfolding trim
trimmed = (refl, refl, refl)

skip-digits : (s : List ℕ) → All IsDigit s → skip white2 white3 s ≡ s
unfolding skip white1 white2 white3
skip-digits [] h = refl
skip-digits (a ∷ []) h = ground arith
skip-digits (a ∷ b ∷ []) h = ground arith
skip-digits (a ∷ b ∷ c ∷ s) h = ground arith

skip-digits_back :
    (s : List ℕ) → All IsDigit s → skip (λ a b. white2 b a) (λ a b c. white3 c b a) s ≡ s
unfolding skip white1 white2 white3
skip-digits_back [] h = refl
skip-digits_back (a ∷ []) h = ground arith
skip-digits_back (a ∷ b ∷ []) h = ground arith
skip-digits_back (a ∷ b ∷ c ∷ s) h = ground arith

All-reverse : (s : List ℕ) → All IsDigit s → All IsDigit (reverse s)
All-reverse [] h = tt
All-reverse (a ∷ s) (h, hs) =
    rw reverse-cons (All-append IsDigit (reverse s) (a ∷ []) (All-reverse s hs) (h, tt))

-- Digits with nothing round them are left as they are.
pub trim-digits : (s : List ℕ) → All IsDigit s → trim s ≡ s
trim-digits s h =
    unfold trim in
    rw (skip-digits s h, skip-digits_back (reverse s) (All-reverse s h)) (reverse-reverse s)
