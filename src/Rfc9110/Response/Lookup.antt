-- ===== src/Rfc9110/Response/Lookup.antt =====
-- What a lookup by name finds in a response built from parsed header lines.
use mathlib.Core.Option
use io_http.Prelude.{
  [], ◌∷◌, ◌++◌, ◌≡◌, ◌↔◌, refl, sym, ap, inl, inr, Bool-cases, ◌∙◌, Option, none, some, arith,
  if◌then◌else◌,
}
use io_http.Text.{Bytes}
use io_http.Text.Ascii.{
  eq_ignore_ascii_case, eq_ignore_ascii_case_iff, eq_ignore_ascii_case-to_lowercase, to_lowercase,
}
use io_http.Text.Utf8.{from_utf8_lossy}
use io_http.Rfc9110.Headers.{Headers, find_header}
use io_http.Rfc9110.Response.{
  header, ResponseBuilder, default_builder, push_header, push_headers, get_header, build,
}

-- The first of two answers.
abbrev pub or_else : Option Bytes → Option Bytes → Option Bytes
or_else none o = o
or_else (some v) o = some v

find_header-append :
    (name : Bytes) (hs hs' : Headers)
    → find_header name (hs ++ hs') ≡ or_else (find_header name hs) (find_header name hs')
unfolding find_header
find_header-append name [] hs' = refl
find_header-append name ((k, v) ∷ hs) hs' = ground (arith, find_header-append name hs hs')

-- One more header line answers for its name, in any case, if no earlier one does.
pub get_header-push_header :
    (b : ResponseBuilder) (name key value : Bytes)
    → get_header (push_header b key value) name
      ≡ or_else
          (get_header b name)
          (if eq_ignore_ascii_case key name then some (from_utf8_lossy value) else none)
unfolding get_header push_header
get_header-push_header b name key value =
    find_header-append name b.headers _
    ∙ (unfold find_header in rw (eq_ignore_ascii_case-to_lowercase key name))

or_else_assoc : (a b c : Option Bytes) → or_else (or_else a b) c ≡ or_else a (or_else b c)
or_else_assoc none b c = refl
or_else_assoc (some v) b c = refl

or_else-find :
    (name key value : Bytes) (hs : Headers)
    → or_else
        (if eq_ignore_ascii_case key name then some (from_utf8_lossy value) else none)
        (Option.map from_utf8_lossy (find_header name hs))
      ≡ Option.map from_utf8_lossy (find_header name ((key, value) ∷ hs))
unfolding find_header
or_else-find name key value hs = ground arith

pub get_header-push_headers :
    (b : ResponseBuilder) (name : Bytes) (hs : Headers)
    → get_header (push_headers b hs) name
      ≡ or_else (get_header b name) (Option.map from_utf8_lossy (find_header name hs))
unfolding push_headers
get_header-push_headers b name [] = unfold find_header in ground arith
get_header-push_headers b name ((key, value) ∷ hs) =
    get_header-push_headers (push_header b key value) name hs
    ∙ rw (get_header-push_header, or_else_assoc, or_else-find)

looked_up :
    (lines : Headers) (name body : Bytes)
    → (header (build (push_headers default_builder lines) body) name
        ≡ Option.map from_utf8_lossy (find_header name lines))
      × (get_header (push_headers default_builder lines) name
          ≡ Option.map from_utf8_lossy (find_header name lines))
looked_up lines name body =
    let found : get_header (push_headers default_builder lines) name
        ≡ Option.map from_utf8_lossy (find_header name lines) =
      get_header-push_headers default_builder name lines ∙ (unfold get_header in refl) in
    (unfold header build get_header in (unfold get_header in found), found)

-- Two names are equal up to the case of ASCII letters.
abbrev pub Named : Bytes → Bytes → Type 0
Named name key = to_lowercase key ≡ to_lowercase name

-- No line has that name.
abbrev pub Unnamed : Bytes → Headers → Type 0
Unnamed name [] = Unit
Unnamed name ((key, value) ∷ hs) = (¬ Named name key) × Unnamed name hs

-- The first line of that name has that value: none of the lines in front of it has the name.
abbrev pub FirstLine : Bytes → Headers → Bytes → Type 0
FirstLine name lines value =
    (front : Headers) × (key : Bytes) × (behind : Headers) × (lines
      ≡ front ++ ((key, value) ∷ behind))
    × Unnamed name front
    × Named name key

find_header-FirstLine :
    (name : Bytes) (lines : Headers) (value : Bytes)
    → find_header name lines ≡ some value
    → FirstLine name lines value
unfolding find_header
find_header-FirstLine name [] value h = cc
find_header-FirstLine name ((key, val) ∷ hs) value h =
    elim (Bool-cases (eq_ignore_ascii_case key name)) [
      | inl e ↦
          let same : val ≡ value = ground arith in
          ([], key, hs, ap (λ v. (key, v) ∷ hs) same, tt, (eq_ignore_ascii_case_iff key name).0 e)
      | inr e ↦
          let (front, k, behind, split, none_before, named) =
            find_header-FirstLine name hs value (rw e at h) in
          (
            (key, val) ∷ front,
            k,
            behind,
            ap (λ x. (key, val) ∷ x) split,
            (λ n. let yes = (eq_ignore_ascii_case_iff key name).1 n in cc, none_before),
            named,
          )
    ]

FirstLine-find_header :
    (name : Bytes) (front : Headers) (key value : Bytes) (behind : Headers)
    → Unnamed name front
    → Named name key
    → find_header name (front ++ ((key, value) ∷ behind)) ≡ some value
unfolding find_header
FirstLine-find_header name [] key value behind h named =
    rw ((eq_ignore_ascii_case_iff key name).1 named)
FirstLine-find_header name ((k, v) ∷ front) key value behind (other, h) named =
    elim (Bool-cases (eq_ignore_ascii_case k name)) [
      | inl e ↦ absurd (other ((eq_ignore_ascii_case_iff k name).0 e))
      | inr e ↦ rw e (FirstLine-find_header name front key value behind h named)
    ]

find_header-Unnamed :
    (name : Bytes) (lines : Headers) → (find_header name lines ≡ none) ↔ Unnamed name lines
unfolding find_header
find_header-Unnamed name [] = (λ h. tt, λ h. refl)
find_header-Unnamed name ((k, v) ∷ hs) =
    let ih = find_header-Unnamed name hs in
    elim (Bool-cases (eq_ignore_ascii_case k name)) [
      | inl e ↦ (λ h. cc, λ (other, h). absurd (other ((eq_ignore_ascii_case_iff k name).0 e)))
      | inr e ↦ (
        λ h. (λ n. let yes = (eq_ignore_ascii_case_iff k name).1 n in cc, ih.0 (rw e at h)),
        λ (other, h). rw e (ih.1 h),
      )
    ]

-- What a lookup that gives `o` found.
abbrev Found : Bytes → Headers → Option Bytes → Type 0
Found name lines o =
    ((v : Bytes)
      → (o ≡ some v) ↔ ((value : Bytes) × FirstLine name lines value × (v ≡ from_utf8_lossy value)))
    × ((o ≡ none) ↔ Unnamed name lines)

Found-map :
    (name : Bytes) (lines : Headers) (o : Option Bytes)
    → find_header name lines ≡ o
    → Found name lines (Option.map from_utf8_lossy o)
Found-map name lines none e =
    let unnamed = (find_header-Unnamed name lines).0 e in
    (
      λ v. (
        λ h. cc,
        λ (value, (front, key, behind, split, none_before, named), w).
            let found = FirstLine-find_header name front key value behind none_before named in
            let same = ap (find_header name) split in cc,
      ),
      (λ h. unnamed, λ h. refl),
    )
Found-map name lines (some found) e = (
  λ v. (
    λ h. (found, find_header-FirstLine name lines found e, cc),
    λ (value, (front, key, behind, split, none_before, named), w).
        let here = FirstLine-find_header name front key value behind none_before named in
        let same = ap (find_header name) split in let same_value : found ≡ value = cc in cc,
  ),
  (λ h. cc, λ h. let missing = (find_header-Unnamed name lines).1 h in cc),
)

-- Looking a name up in the response that is built from parsed header lines, with any body, gives a
-- value exactly if a line has that name, up to case, and none of the lines in front of it has; it is
-- the value of that line, read as lossy UTF-8. It gives nothing exactly if no line has that name. The
-- builder's own lookup gives the same.
pub header-build :
    (lines : Headers) (name body : Bytes)
    → ((v : Bytes)
        → (header (build (push_headers default_builder lines) body) name ≡ some v)
          ↔ ((value : Bytes) × FirstLine name lines value × (v ≡ from_utf8_lossy value)))
      × ((header (build (push_headers default_builder lines) body) name ≡ none)
          ↔ Unnamed name lines)
      × (get_header (push_headers default_builder lines) name
          ≡ header (build (push_headers default_builder lines) body) name)
header-build lines name body =
    let (built, builder) = looked_up lines name body in
    let found : Found name lines (header (build (push_headers default_builder lines) body) name) =
      rw built (Found-map name lines (find_header name lines) refl) in
    (found.0, found.1, builder ∙ sym built)
