-- ===== src/Rfc9112/Chunk/Reference/Bodies.antt =====
-- The wires that are decoded to a body, as a relation on the wire and its body.
use io_http.Prelude.{
  ℕ, ◌≤◌, ◌<◌, [], ◌++◌, ◌≡◌, refl, subst, sym, ◌∙◌, ap, some, length, arith, append-injective,
  length-append,
}
use io_http.Text.{Bytes}
use io_http.Text.Radix.{from_str_radix}
use io_http.Text.Search.{crlf, crlf_crlf, index_of}
use io_http.Rfc9112.Chunk.Reference.{size_text}

-- `Accepted wire body`: lines, each up to the first CRLF, whose text up to a semicolon reads as a
-- hexadecimal number, each but the last with so many bytes of data behind its CRLF and then any two
-- bytes; the last one reads as 0, and a double CRLF stands somewhere from its CRLF on. The body is
-- the data in order.
pub data Accepted : Bytes → Bytes → Type 0 where
  ends :
      {wire body : Bytes} (line rest : Bytes) (i : ℕ)
      → from_str_radix (size_text line) 16 ≡ some 0
      → wire ≡ line ++ (crlf ++ rest)
      → index_of crlf wire ≡ some (length line)
      → index_of crlf_crlf (crlf ++ rest) ≡ some i
      → body ≡ []
      → Accepted wire body
  block :
      {wire body : Bytes} (line chunk_data two rest rest_body : Bytes)
      → from_str_radix (size_text line) 16 ≡ some (length chunk_data)
      → 0 < length chunk_data
      → length two ≡ 2
      → wire ≡ line ++ (crlf ++ (chunk_data ++ (two ++ rest)))
      → index_of crlf wire ≡ some (length line)
      → body ≡ chunk_data ++ rest_body
      → Accepted rest rest_body
      → Accepted wire body

pub Accepted-length : {wire body : Bytes} → Accepted wire body → length body ≤ length wire
Accepted-length (ends line rest i f split here found empty) = rw empty (omega arith)
Accepted-length (block line bytes two rest rest_body f pos is_two split here e accepted) =
    let ih = Accepted-length accepted in
    rw (split, e)
      (omega (
        arith,
        length-append line (crlf ++ (bytes ++ (two ++ rest))),
        length-append bytes (two ++ rest),
        length-append two rest,
        length-append bytes rest_body,
      ))

-- One wire has one first line, and one rest behind its CRLF.
same_line :
    (wire line line' rest rest' : Bytes)
    → wire ≡ line ++ (crlf ++ rest)
    → index_of crlf wire ≡ some (length line)
    → wire ≡ line' ++ (crlf ++ rest')
    → index_of crlf wire ≡ some (length line')
    → (line ≡ line') × (rest ≡ rest')
same_line wire line line' rest rest' e here e' here' =
    let at : some (length line) ≡ some (length line') = sym here ∙ here' in
    let long : length line ≡ length line' = cc in
    let (same, tails) =
      append-injective line line' (crlf ++ rest) (crlf ++ rest') long (sym e ∙ e') in
    (same, (append-injective crlf crlf rest rest' refl tails).1)

same_size :
    (line line' : Bytes) (n n' : ℕ)
    → line ≡ line'
    → from_str_radix (size_text line) 16 ≡ some n
    → from_str_radix (size_text line') 16 ≡ some n'
    → n ≡ n'
same_size line line' n n' same e e' =
    let sizes : some n ≡ some n' = sym e ∙ ap (λ l. from_str_radix (size_text l) 16) same ∙ e' in cc

-- A wire has at most one body.
pub Accepted-unique :
    {wire body body' : Bytes} → Accepted wire body → Accepted wire body' → body ≡ body'
Accepted-unique (ends line rest i f split here found e)
      (ends line' rest' i' f' split' here' found' e') =
    e ∙ sym e'
Accepted-unique {wire} (ends line rest i f split here found e)
      (block line' bytes two rest' rest_body f' pos is_two split' here' e' accepted) =
    let (same, tails) =
      same_line wire line line' rest (bytes ++ (two ++ rest')) split here split' here' in
    let size = same_size line line' 0 (length bytes) same f f' in absurd (omega arith)
Accepted-unique {wire} (block line bytes two rest rest_body f pos is_two split here e accepted)
      (ends line' rest' i' f' split' here' found' e') =
    let (same, tails) =
      same_line wire line line' (bytes ++ (two ++ rest)) rest' split here split' here' in
    let size = same_size line line' (length bytes) 0 same f f' in absurd (omega arith)
Accepted-unique {wire} (block line bytes two rest rest_body f pos is_two split here e accepted)
      (block line' bytes' two' rest' rest_body' f' pos' is_two' split' here' e' accepted') =
    let (same, tails) =
      same_line wire line line' (bytes ++ (two ++ rest)) (bytes' ++ (two' ++ rest')) split here
        split' here' in
    let size = same_size line line' (length bytes) (length bytes') same f f' in
    let (same_bytes, after) =
      append-injective bytes bytes' (two ++ rest) (two' ++ rest') size tails in
    let (same_two, same_rest) = append-injective two two' rest rest' (is_two ∙ sym is_two') after in
    let accepted'' : Accepted rest rest_body' =
      subst (λ w. Accepted w rest_body') (sym same_rest) accepted' in
    let same_body = Accepted-unique accepted accepted'' in cc
