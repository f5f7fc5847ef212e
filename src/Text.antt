-- ===== src/Text.antt =====
-- Text and bytes. A Rust `String` or `&str` is modelled by its UTF-8 bytes, so `as_bytes` is the
-- identity and a byte vector and a text share one type. Bytes are plain numbers.
pub mod Ascii
pub mod Radix
pub mod Utf8
pub mod Trim
pub mod Search
use io_http.Text.Search.{Lacks}
use Prim.Native.Char.{code}
use io_http.Prelude.{
  ℕ, String, List, [], ◌∷◌, ◌++◌, ◌≡◌, refl, ap, leb, length, take, length-append,
  take-length_append, ◌↔◌, Bool, true, false, ◌&&◌, Option, none, some, ◌==◌, ==_iff, if◌then◌else◌,
  arith, Bool-cases, Option-cases, ◌≢◌, inl, inr,
}

abbrev pub Bytes : Type 0
Bytes = List ℕ

-- The bytes of an ASCII literal.
abbrev pub codes : String → Bytes
codes String.[] = []
codes (String.◌∷◌ c s) = code c ∷ codes s

-- `a == b` on strings and byte vectors.
unfoldable pub bytes_eq : Bytes → Bytes → Bool
bytes_eq [] [] = true
bytes_eq (a ∷ s) (b ∷ t) = a == b && bytes_eq s t
bytes_eq _ _ = false

bytes_eq→ : (s t : Bytes) → bytes_eq s t ≡ true → s ≡ t
unfolding bytes_eq
bytes_eq→ [] [] h = refl
bytes_eq→ (a ∷ s) (b ∷ t) h = ground (arith, bytes_eq→ s t)
bytes_eq→ _ _ h = ground arith

pub bytes_eq_refl : (s : Bytes) → bytes_eq s s ≡ true
unfolding bytes_eq
bytes_eq_refl [] = refl
bytes_eq_refl (a ∷ s) = ground (arith, bytes_eq_refl s)

pub bytes_eq_iff : (s t : Bytes) → (bytes_eq s t ≡ true) ↔ (s ≡ t)
bytes_eq_iff s t = (bytes_eq→ s t, λ e. rw e (bytes_eq_refl t))

-- `str::strip_prefix`.
unfoldable pub strip_prefix : Bytes → Bytes → Option Bytes
strip_prefix [] s = some s
strip_prefix (p ∷ ps) [] = none
strip_prefix (p ∷ ps) (c ∷ s) = if c == p then strip_prefix ps s else none

pub strip_prefix-append : (p s : Bytes) → strip_prefix p (p ++ s) ≡ some s
unfolding strip_prefix
strip_prefix-append [] s = refl
strip_prefix-append (c ∷ p) s = ground (arith, strip_prefix-append p s)

pub strip_prefix-eq-some : (p v : Bytes) (s : Bytes) → strip_prefix p v ≡ some s → v ≡ p ++ s
unfolding strip_prefix
strip_prefix-eq-some [] v s h = ground arith
strip_prefix-eq-some (c ∷ p) [] s h = ground arith
strip_prefix-eq-some (c ∷ p) (d ∷ v) s h = ground (arith, strip_prefix-eq-some p v s)

pub strip_prefix-eq-none : (p v s : Bytes) → strip_prefix p v ≡ none → v ≢ p ++ s
strip_prefix-eq-none p v s h e = cc (strip_prefix-append p s, ap (strip_prefix p) e)

-- `str::split_once` with an ASCII character.
unfoldable pub split_once : ℕ → Bytes → Option (Bytes × Bytes)
split_once sep [] = none
split_once sep (c ∷ s) =
    if c == sep
    then some ([], s)
    else elim (split_once sep s) [ none ↦ none | some (a, b) ↦ some (c ∷ a, b) ]

pub split_once-eq-some :
    (sep : ℕ) (s a b : Bytes) → split_once sep s ≡ some (a, b) → (s ≡ a ++ sep ∷ b) × Lacks sep a
unfolding split_once
split_once-eq-some sep [] a b h = ground arith
split_once-eq-some sep (c ∷ s) a b h = elim (Bool-cases (c == sep)) [
  | inl e ↦ let none_before : a ≡ [] = ground arith in ground arith
  | inr e ↦ elim (Option-cases (split_once sep s)) [
    | inl missing ↦ ground arith
    | inr ((a', b'), found) ↦ ground (arith, split_once-eq-some sep s a' b' found)
  ]
]

pub split_once-eq-none : (sep : ℕ) (s : Bytes) → split_once sep s ≡ none → Lacks sep s
unfolding split_once
split_once-eq-none sep [] h = tt
split_once-eq-none sep (c ∷ s) h = ground (arith, split_once-eq-none sep s)

-- A text is split at its first separator.
pub split_once-append :
    (sep : ℕ) (a b : Bytes) → Lacks sep a → split_once sep (a ++ sep ∷ b) ≡ some (a, b)
unfolding split_once
split_once-append sep [] b h = ground arith
split_once-append sep (c ∷ a) b (h, hs) = ground (arith, split_once-append sep a b hs)

-- `&s[..n]`, which panics where `n` is past the end.
unfoldable pub slice_to : ℕ → Bytes → Option Bytes
slice_to n s = if leb n (length s) then some (take n s) else none

pub slice_to-length : (s t : Bytes) → slice_to (length s) (s ++ t) ≡ some s
unfolding slice_to
slice_to-length s t = ground (arith, length-append s t, take-length_append s t)
