-- ===== src/Text/Utf8.antt =====
-- UTF-8: `core::str::from_utf8` and `String::from_utf8_lossy`, as one pass over the bytes by the
-- table of well-formed byte sequences.
use io_http.Prelude.{
  ℕ, zero, suc, ◌<◌, List, [], ◌∷◌, ◌++◌, ◌≡◌, ◌≢◌, refl, Bool, true, false, ◌&&◌, ◌==◌, leb, ltb,
  Option, none, some, if◌then◌else◌, arith, All, append_assoc, append-nil, Option-cases, inl, inr,
  ◌∙◌,
}

-- Where the pass stands: between characters, or inside one, with the count of bytes that must
-- follow the next one, the range of the next one, and the bytes so far.
pub data Pending : Type 0 where
  boundary : Pending
  within : ℕ → ℕ → ℕ → List ℕ → Pending

pending : Pending → List ℕ
pending boundary = []
pending (within n lo hi p) = p

abbrev between : ℕ → ℕ → ℕ → Bool
between lo hi b = leb lo b && leb b hi

-- The first byte of a character.
lead : ℕ → Option Pending
lead b =
    if ltb b 128
    then some boundary
    else if between 0xc2 0xdf b
    then some (within 0 0x80 0xbf (b ∷ []))
    else if b == 0xe0
    then some (within 1 0xa0 0xbf (b ∷ []))
    else if b == 0xed
    then some (within 1 0x80 0x9f (b ∷ []))
    else if between 0xe1 0xef b
    then some (within 1 0x80 0xbf (b ∷ []))
    else if b == 0xf0
    then some (within 2 0x90 0xbf (b ∷ []))
    else if between 0xf1 0xf3 b
    then some (within 2 0x80 0xbf (b ∷ []))
    else if b == 0xf4
    then some (within 2 0x80 0x8f (b ∷ []))
    else none

accept : Pending → ℕ → Option Pending
accept boundary b = lead b
accept (within zero lo hi p) b = if between lo hi b then some boundary else none
accept (within (suc n) lo hi p) b =
    if between lo hi b then some (within n 0x80 0xbf (p ++ b ∷ [])) else none

valid_from : Pending → List ℕ → Bool
valid_from boundary [] = true
valid_from (within n lo hi p) [] = false
valid_from st (b ∷ s) = elim (accept st b) [ none ↦ false | some st' ↦ valid_from st' s ]

unfoldable pub is_utf8 : List ℕ → Bool
unfolding valid_from accept lead
is_utf8 s = valid_from boundary s

-- `from_utf8`, whose error the program drops.
unfoldable pub from_utf8 : List ℕ → Option (List ℕ)
unfolding is_utf8
from_utf8 s = if is_utf8 s then some s else none

-- U+FFFD.
abbrev pub replacement : List ℕ
replacement = 0xef ∷ 0xbf ∷ 0xbd ∷ []

-- What a byte adds to the output, and the state behind it: a sequence that cannot go on is replaced
-- and the byte is read again as a first byte.
written : Pending → ℕ → Option Pending → List ℕ
written st b (some boundary) = pending st ++ b ∷ []
written st b (some (within n lo hi p)) = []
written st b none = replacement

reached : Option Pending → Pending
reached (some st) = st
reached none = boundary

lossy_step : Pending → ℕ → List ℕ × Pending
unfolding written reached accept lead pending
lossy_step boundary b = (written boundary b (lead b), reached (lead b))
lossy_step (within n lo hi p) b = elim (accept (within n lo hi p) b) [
  | some st ↦ (written (within n lo hi p) b (some st), st)
  | none ↦ (replacement ++ written boundary b (lead b), reached (lead b))
]

lossy_from : Pending → List ℕ → List ℕ
lossy_from boundary [] = []
lossy_from (within n lo hi p) [] = replacement
lossy_from st (b ∷ s) = let (out, st') = lossy_step st b in out ++ lossy_from st' s

unfoldable pub from_utf8_lossy : List ℕ → List ℕ
unfolding lossy_from lossy_step
from_utf8_lossy s = lossy_from boundary s

-- A cut off character, a stray byte, an overlong form: one replacement each.
lossy_tests :
    (from_utf8_lossy (b'a' ∷ 0xc3 ∷ 0xa9 ∷ []) ≡ b'a' ∷ 0xc3 ∷ 0xa9 ∷ [])
    × (from_utf8_lossy (0xe2 ∷ 0x82 ∷ b'a' ∷ []) ≡ replacement ++ b'a' ∷ [])
    × (from_utf8_lossy (0xff ∷ []) ≡ replacement)
    × (from_utf8_lossy (0xc0 ∷ 0x80 ∷ []) ≡ replacement ++ replacement)
unfolding from_utf8_lossy
lossy_tests = (refl, refl, refl, refl)

accept-valid :
    (st : Pending) (b : ℕ) (s : List ℕ)
    → valid_from st (b ∷ s) ≡ true
    → (st' : Pending) × (accept st b ≡ some st') × (valid_from st' s ≡ true)
unfolding valid_from
accept-valid boundary b s h = elim (Option-cases (accept boundary b)) [
  | inl e ↦ ground arith
  | inr (st', e) ↦ (st', e, ground arith)
]
accept-valid (within n lo hi p) b s h = elim (Option-cases (accept (within n lo hi p) b)) [
  | inl e ↦ ground arith
  | inr (st', e) ↦ (st', e, ground arith)
]

valid-accept :
    (st : Pending) (b : ℕ) (s : List ℕ) (st' : Pending)
    → accept st b ≡ some st'
    → valid_from st (b ∷ s) ≡ valid_from st' s
unfolding valid_from
valid-accept boundary b s st' e = rw (e, valid_from)
valid-accept (within n lo hi p) b s st' e = rw (e, valid_from)

valid_from-append :
    (st : Pending) (s t : List ℕ)
    → valid_from st s ≡ true
    → is_utf8 t ≡ true
    → valid_from st (s ++ t) ≡ true
valid_from-append boundary [] t h k = unfold is_utf8 in k
valid_from-append (within n lo hi p) [] t h k = unfold valid_from in ground arith
valid_from-append st (b ∷ s) t h k =
    let (st', e, h') = accept-valid st b s h in
    valid-accept st b (s ++ t) st' e ∙ valid_from-append st' s t h' k

-- Two valid texts make a valid text.
pub is_utf8-append : (s t : List ℕ) → is_utf8 s ≡ true → is_utf8 t ≡ true → is_utf8 (s ++ t) ≡ true
is_utf8-append s t h k = unfold is_utf8 in valid_from-append boundary s t (unfold is_utf8 in h) k

lead-ascii : (b : ℕ) → b < 128 → accept boundary b ≡ some boundary
unfolding accept lead
lead-ascii b h = ground arith

valid_from-ascii : (s : List ℕ) → All (λ b. b < 128) s → valid_from boundary s ≡ true
valid_from-ascii [] h = unfold valid_from in refl
valid_from-ascii (b ∷ s) (h, hs) =
    valid-accept boundary b s boundary (lead-ascii b h) ∙ valid_from-ascii s hs

-- ASCII bytes are valid text.
pub is_utf8-ascii : (s : List ℕ) → All (λ b. b < 128) s → is_utf8 s ≡ true
unfolding is_utf8
is_utf8-ascii = valid_from-ascii

-- The bytes that a state holds, after one more byte was accepted.
pending-accept :
    (st : Pending) (b n lo hi : ℕ) (p : List ℕ)
    → accept st b ≡ some (within n lo hi p)
    → p ≡ pending st ++ b ∷ []
unfolding accept lead pending
pending-accept boundary b n lo hi p e = ground arith
pending-accept (within zero lo' hi' q) b n lo hi p e = ground arith
pending-accept (within (suc m) lo' hi' q) b n lo hi p e = ground arith

lossy_step-accept :
    (st : Pending) (b : ℕ) (st' : Pending)
    → accept st b ≡ some st'
    → lossy_step st b ≡ (written st b (some st'), st')
unfolding lossy_step
lossy_step-accept boundary b st' e = ground arith
lossy_step-accept (within n lo hi p) b st' e = rw (e, lossy_step)

lossy_from-cons :
    (st : Pending) (b : ℕ) (s : List ℕ)
    → lossy_from st (b ∷ s) ≡ (lossy_step st b).0 ++ lossy_from (lossy_step st b).1 s
unfolding lossy_from
lossy_from-cons boundary b s = refl
lossy_from-cons (within n lo hi p) b s = refl

written-pending :
    (st : Pending) (b : ℕ) (st' : Pending)
    → accept st b ≡ some st'
    → written st b (some st') ++ pending st' ≡ pending st ++ b ∷ []
unfolding written
written-pending st b boundary e = unfold pending in append-nil _
written-pending st b (within n lo hi p) e = unfold pending in pending-accept st b n lo hi p e

lossy_from-valid :
    (st : Pending) (s : List ℕ) → valid_from st s ≡ true → lossy_from st s ≡ pending st ++ s
lossy_from-valid boundary [] h = unfold lossy_from pending in refl
lossy_from-valid (within n lo hi p) [] h = unfold valid_from in ground arith
lossy_from-valid st (b ∷ s) h =
    let (st', e, h') = accept-valid st b s h in
    rw (
      lossy_from-cons,
      lossy_step-accept st b st' e,
      lossy_from-valid st' s h',
      ← append_assoc,
      written-pending st b st' e,
      append_assoc,
    )

-- The lossy reading changes no valid text.
pub from_utf8_lossy_of_valid : (s : List ℕ) → is_utf8 s ≡ true → from_utf8_lossy s ≡ s
from_utf8_lossy_of_valid s h =
    unfold from_utf8_lossy pending in lossy_from-valid boundary s (unfold is_utf8 in h)

pub from_utf8-eq-some : (s t : List ℕ) → from_utf8 s ≡ some t → (t ≡ s) × (is_utf8 s ≡ true)
unfolding from_utf8
from_utf8-eq-some s t h = ground arith

pub from_utf8-eq-none : (s : List ℕ) → from_utf8 s ≡ none → is_utf8 s ≢ true
unfolding from_utf8
from_utf8-eq-none s h = ground arith

pub from_utf8_of_valid : (s : List ℕ) → is_utf8 s ≡ true → from_utf8 s ≡ some s
unfolding from_utf8
from_utf8_of_valid s h = rw h
