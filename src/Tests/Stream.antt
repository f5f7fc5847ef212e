-- ===== src/Tests/Stream.antt =====
-- The sample stream and its readers do what the io-socket crate promises.
use io_http.Prelude.{
  ℕ, [], ◌∷◌, ◌++◌, ◌≡◌, ◌≢◌, ◌≤◌, ◌<◌, ap, refl, length, arith, length-append, append-nil,
}
use mathlib.Core.List.{cons-ne-nil}
use io_http.Text.{Bytes, slice_to}
use io_http.External.Socket.{SocketReadExactResult}
use io_http.External.Socket.Transport.{SocketLaws, Reads, Fills}
use io_http.Tests.Sample.{Exact, Ask, read, exact_result, sample_io, sample_transport}

abbrev Filling : Exact → ℕ → Bytes → Type 0
Filling r target have = (r ≡ record { target = target; have = have }) × (length have ≤ target)

abbrev Waiting : Exact → Ask → ℕ → Bytes → Type 0
Waiting r i target have =
    (r ≡ record { target = target; have = have }) × (length have < target) × (i ≡ read)

exact_result-full :
    (target : ℕ) (have : Bytes)
    → length have ≡ target
    → exact_result target have ≡ SocketReadExactResult.ok have
exact_result-full target have h = ground arith

exact_result-more :
    (target : ℕ) (have : Bytes)
    → length have < target
    → exact_result target have ≡ SocketReadExactResult.io read
exact_result-more target have h = ground arith

with_reader :
    (r : Exact) {x y : SocketReadExactResult Ask Unit}
    → x ≡ y
    → ◌≡◌ {A = Exact × SocketReadExactResult Ask Unit} (r, x) (r, y)
with_reader r e = ap (λ x. (r, x)) e

sample-Reads :
    (r : Unit {0}) (w s : Bytes)
    → s ≢ []
    → Reads sample_io sample_transport (λ r. Unit) r read (record { sent = w; pending = s })
unfolding slice_to
sample-Reads r w [] ne = absurd (ne refl)
sample-Reads r w (c ∷ s) ne = record {
  bytes = c ∷ [];
  buf = record { bytes = c ∷ []; capacity = 1 };
  count = 1;
  next = tt;
  some_bytes = cons-ne-nil c [];
  split = refl;
  returns = refl;
  content = refl;
  ready = tt;
}

sample-Fills :
    (target : ℕ) (have w s : Bytes)
    → length have < target
    → s ≢ []
    → Fills sample_io sample_transport Waiting
        (record { target = target; have = have })
        read
        target
        have
        (record { sent = w; pending = s })
sample-Fills target have w [] lt ne = absurd (ne refl)
sample-Fills target have w (c ∷ s) lt ne = record {
  bytes = c ∷ [];
  next = record { target = target; have = have ++ c ∷ [] };
  some_bytes = cons-ne-nil c [];
  split = refl;
  fits = let l = length-append have (c ∷ []) in omega arith;
  full = λ h.
      with_reader (record { target = target; have = have ++ c ∷ [] })
        (exact_result-full target (have ++ c ∷ []) h);
  more = λ h. (
    read,
    with_reader (record { target = target; have = have ++ c ∷ [] })
        (exact_result-more target (have ++ c ∷ []) h),
    (refl, h, refl),
  );
}

pub sample_laws : SocketLaws sample_io sample_transport
sample_laws = record {
  Ready = λ r. Unit;
  Asked = λ r i. i ≡ read;
  default_ready = tt;
  capacity_ready = λ r b h. tt;
  read_asks = λ r h. (tt, read, refl, refl);
  read_gets = λ r i s h ne. rw h (sample-Reads r s.sent s.pending ne);
  read_ends = λ r i s h e. (tt, rw (h, e));
  Filling = Filling;
  Waiting = Waiting;
  new_filling = λ target. (refl, omega arith);
  extend_filling = λ r target have bytes (e, le) h. (rw e refl, h);
  exact_full = λ r target have (e, le) h. (
    record { target = target; have = have },
    rw (e, append-nil)
        (with_reader (record { target = target; have = have }) (exact_result-full target have h)),
  );
  exact_asks = λ r target have (e, le) h. (
    record { target = target; have = have },
    read,
    rw (e, append-nil)
        (with_reader (record { target = target; have = have }) (exact_result-more target have h)),
    (refl, h, refl),
  );
  exact_gets = λ r i target have s (e, lt, a) ne.
      rw (e, a) (sample-Fills target have s.sent s.pending lt ne);
  exact_ends = λ r i target have s (e, lt, a) lt' ended.
      (record r { have = r.have ++ [] }, tt, rw (a, ended));
}
