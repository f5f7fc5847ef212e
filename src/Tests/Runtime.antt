-- ===== src/Tests/Runtime.antt =====
-- The sample's writer and its reader to the end do what the io-socket crate promises.
use io_http.Prelude.{[], ◌∷◌, ◌++◌, ◌≡◌, ◌≢◌, refl, none, append-nil}
use mathlib.Core.List.{cons-ne-nil}
use io_http.Text.{Bytes}
use io_http.External.Socket.{SocketWriteResult}
use io_http.External.Socket.Runtime.{RuntimeLaws, Writes, Gains}
use io_http.Tests.Sample.{Ask, read, write, Wire, write_result, sample_io, sample_transport}

abbrev Writing : Bytes → Ask → Bytes → Type 0
Writing w i bytes = (w ≡ bytes) × (i ≡ write bytes)

abbrev Awaiting : Bytes → Ask → Bytes → Type 0
Awaiting r i have = (r ≡ have) × (i ≡ read)

write_asks :
    (bytes : Bytes)
    → bytes ≢ []
    → (w : Bytes) × (input : Ask) × (sample_io.write_resume bytes none
        ≡ (w, SocketWriteResult.io input))
      × Writing w input bytes
write_asks [] ne = absurd (ne refl)
write_asks (c ∷ s) ne = (c ∷ s, write (c ∷ s), refl, (refl, refl))

write_more :
    (s : Bytes)
    → s ≢ []
    → (i : Ask) × (◌≡◌ {A = Bytes × SocketWriteResult Ask (Unit {0})}
        (s, write_result s)
        (s, SocketWriteResult.io i))
      × Writing s i s
write_more [] ne = absurd (ne refl)
write_more (c ∷ s) ne = (write (c ∷ s), refl, (refl, refl))

write_byte :
    (bytes : Bytes) (s : Wire)
    → bytes ≢ []
    → Writes sample_io sample_transport Writing bytes (write bytes) bytes s
write_byte [] s ne = absurd (ne refl)
write_byte (c ∷ bytes) s ne = record {
  part = c ∷ [];
  rest = bytes;
  next = bytes;
  some_bytes = cons-ne-nil c [];
  split = refl;
  taken = refl;
  unread = refl;
  full = λ h. rw h;
  more = λ h. write_more bytes h;
}

read_more :
    (have w s : Bytes)
    → s ≢ []
    → Gains sample_io sample_transport Awaiting have read have (record { sent = w; pending = s })
read_more have w [] ne = absurd (ne refl)
read_more have w (c ∷ s) ne = record {
  bytes = c ∷ [];
  next = have ++ c ∷ [];
  input' = read;
  some_bytes = cons-ne-nil c [];
  split = refl;
  returns = refl;
  awaits = (refl, refl);
}

pub sample_runtime : RuntimeLaws sample_io sample_transport
sample_runtime = record {
  Writing = Writing;
  write_asks = write_asks;
  write_goes = λ w i bytes s (e, a) ne. rw (e, a) (write_byte bytes s ne);
  Draining = λ r have. r ≡ have;
  Awaiting = Awaiting;
  new_draining = refl;
  extend_draining = λ r have bytes e. rw e refl;
  to_end_asks = λ r have e. (have, read, rw (e, append-nil), (refl, refl));
  to_end_gets = λ r i have s (e, a) ne. rw (e, a) (read_more have s.sent s.pending ne);
  to_end_ends = λ r i have s (e, a) ended. (r ++ [], rw (e, a, ended));
}
