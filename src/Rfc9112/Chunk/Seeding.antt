-- ===== src/Rfc9112/Chunk/Seeding.antt =====
-- The bytes that seed the exact read of a chunk, and those that stay in the buffer.
use io_http.Prelude.{
  ℕ, ◌≤◌, ◌++◌, ◌≡◌, sym, ◌∙◌, ap, inl, inr, min, length, take, drop, arith, ltb, Bool-cases,
  ltb→lt, ltb_false→le, append-injective, append-cut, take-ge, drop-ge, length-append, length-take,
  take-length_append, drop-length_append,
}
use io_http.Text.{Bytes}

-- A read is seeded with at most `target` of the bytes in the buffer, and those that are left there
-- are the next ones when the read is done.
pub seed_split :
    (target : ℕ) (y more d rest x more' : Bytes)
    → length d ≡ target
    → length x ≡ target
    → y ++ more ≡ d ++ rest
    → take (min (length y) target) y ++ more ≡ x ++ more'
    → (x ≡ d) × (drop (min (length y) target) y ++ more' ≡ rest)
seed_split target y more d rest x more' hd hx e f = elim (Bool-cases (ltb target (length y))) [
  | inr small ↦
      let le = ltb_false→le target (length y) small in
      let at : min (length y) target ≡ length y = omega arith in
      let f' = rw (at, take-ge (length y) y (omega arith)) at f in
      let (same, tail) = append-injective x d more' rest (omega arith) (sym f' ∙ e) in
      (same, rw (at, drop-ge (length y) y (omega arith)) tail)
  | inl big ↦
      let lt = ltb→lt target (length y) big in
      let at : min (length y) target ≡ length d = omega arith in
      let (w, front, back) = append-cut y d more rest (omega arith) e in
      let f' = rw (at, front, take-length_append d w) at f in
      let (same, tail) = append-injective x d more' more (omega arith) (sym f') in
      (same, rw (at, front, drop-length_append d w, tail) back)
]

pub seed_enough :
    (target : ℕ) (y more d rest : Bytes)
    → length d ≡ target
    → y ++ more ≡ d ++ rest
    → target ≤ length (take (min (length y) target) y ++ more)
seed_enough target y more d rest hd e =
    let split = length-append (take (min (length y) target) y) more in
    let taken = length-take (min (length y) target) y in
    let whole = ap length e in
    let left = length-append y more in let right = length-append d rest in omega arith
