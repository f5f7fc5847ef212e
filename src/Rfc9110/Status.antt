-- ===== src/Rfc9110/Status.antt =====
-- Status codes (src/rfc9110/status.rs).
use io_http.Prelude.{ℕ, ◌≤◌, ◌<◌, ◌≡◌, ◌↔◌, Bool, true, false, ◌&&◌, leb, ltb, arith}

pub record StatusCode : Type 0 where
  pub code : ℕ

unfoldable pub is_success : StatusCode → Bool
is_success s = leb 200 s.code && ltb s.code 300

unfoldable pub is_redirection : StatusCode → Bool
is_redirection s = leb 300 s.code && ltb s.code 400

-- The two classes are the ranges 200 to 299 and 300 to 399, and no code is in both.
pub status_classes :
    (s : StatusCode)
    → ((is_success s ≡ true) ↔ (200 ≤ s.code) × (s.code < 300))
      × ((is_redirection s ≡ true) ↔ (300 ≤ s.code) × (s.code < 400))
      × ((is_success s && is_redirection s) ≡ false)
unfolding is_success is_redirection
status_classes s = ground arith
