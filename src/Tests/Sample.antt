-- ===== src/Tests/Sample.antt =====
-- Small concrete externals: a stream that delivers one byte at a time, a plain codec, a secret that
-- is its string, a search from the left, and URLs that are strings.
use io_http.Prelude.{
  ℕ, [], ◌∷◌, ◌++◌, ◌+◌, refl, none, some, length, inr, ◌==◌, if◌then◌else◌, take, drop, Option,
}
use io_http.Text.{Bytes, codes, bytes_eq}
use io_http.Text.Search.{index_of, crlf_crlf}
use io_http.External.Secrecy.{Secrecy, SecrecyLaws}
use io_http.External.Base64.{Base64, Base64Laws}
use io_http.External.Memchr.{Memchr, MemchrLaws}
use io_http.External.Url.{UrlApi}
use io_http.External.Httparse.{Httparse, Parsed, complete, partial}
use io_http.External.Socket.{
  IoSocket, SocketReadResult, SocketWriteResult, SocketReadExactResult, SocketReadToEndResult,
}
use io_http.External.Socket.Transport.{Transport}
use io_http.Rfc9110.Headers.{Headers}

abbrev pub sample_secrecy : Secrecy
sample_secrecy = record { SecretString = Bytes; from = λ s. s; expose_secret = λ s. s }

abbrev pub sample_secrets : SecrecyLaws sample_secrecy
sample_secrets = record { expose-from = λ s. refl }

abbrev pub sample_base64 : Base64
sample_base64 = record { DecodeError = Unit; encode = λ s. s; decode = λ s. inr s }

abbrev pub sample_codec : Base64Laws sample_base64
sample_codec = record { decode-encode = λ s. refl }

abbrev pub sample_memchr : Memchr
sample_memchr = record { find = λ h n. index_of n h; memchr = λ c h. index_of (c ∷ []) h }

abbrev pub sample_first : MemchrLaws sample_memchr
sample_first = record { find_first = λ h n. refl; memchr_first = λ c h. refl }

abbrev pub sample_url : UrlApi
sample_url = record {
  Url = Bytes;
  Host = Bytes;
  ParseError = Unit;
  parse = λ s. inr s;
  join = λ u s. inr s;
  set_path = λ u s. u ++ s;
  path = λ u. u;
  query = λ u. none;
  scheme = λ u. codes "https";
  host = λ u. some (codes "h");
  port = λ u. none;
  host_str = λ u. some u;
  domain = λ u. some u;
  port_or_known_default = λ u. none;
  host_eq = bytes_eq;
}

abbrev pub parsed : Headers → Option ℕ → Parsed Unit
parsed lines none = partial
parsed lines (some i) = complete (i + 4) (some 1) (some 200) lines

-- Every head is that of a 200 response with these headers.
abbrev pub parser_of : Headers → Httparse
parser_of lines = record { Error = Unit; parse = λ n s. parsed lines (index_of crlf_crlf s) }

abbrev pub sample_parser : Httparse
sample_parser = parser_of []

pub data Ask : Type 0 where
  read : Ask
  write : Bytes → Ask

pub data Answer : Type 0 where
  delivered : Bytes → Answer
  wrote : ℕ → Answer

pub record Exact : Type 0 where
  pub target : ℕ
  pub have : Bytes

abbrev pub gained : Option Answer → Bytes
gained (some (delivered s)) = s
gained _ = []

abbrev pub exact_result : ℕ → Bytes → SocketReadExactResult Ask (Unit {0})
exact_result target have =
    if length have == target then SocketReadExactResult.ok have else SocketReadExactResult.io read

-- An exact read fails when nothing more comes.
abbrev pub exact_answer : ℕ → Bytes → Option Answer → SocketReadExactResult Ask (Unit {0})
exact_answer target have (some (delivered [])) = SocketReadExactResult.err tt
exact_answer target have a = exact_result target (have ++ gained a)

abbrev pub read_result : Option Answer → SocketReadResult Ask (Unit {0})
read_result none = SocketReadResult.io read
read_result (some (wrote n)) = SocketReadResult.err tt
read_result (some (delivered [])) = SocketReadResult.eof
read_result (some (delivered (c ∷ s))) =
    SocketReadResult.ok (record { bytes = c ∷ s; capacity = 1 }) (length (c ∷ s))

abbrev pub to_end_result : Bytes → Option Answer → SocketReadToEndResult Ask (Unit {0})
to_end_result have (some (delivered [])) = SocketReadToEndResult.ok have
to_end_result have a = SocketReadToEndResult.io read

-- What is left to write after an answer.
abbrev pub unwritten : Bytes → Option Answer → Bytes
unwritten s (some (wrote n)) = drop n s
unwritten s a = s

abbrev pub write_result : Bytes → SocketWriteResult Ask (Unit {0})
write_result [] = SocketWriteResult.ok
write_result (c ∷ s) = SocketWriteResult.io (write (c ∷ s))

abbrev pub sample_io : IoSocket
sample_io = record {
  SocketInput = Ask;
  SocketOutput = Answer;
  SocketRead = Unit;
  SocketReadError = Unit;
  read_default = tt;
  read_with_capacity = λ n. tt;
  read_replace = λ r b. tt;
  read_resume = λ r a. (tt, read_result a);
  SocketReadExact = Exact;
  SocketReadExactError = Unit;
  exact_new = λ n. record { target = n; have = [] };
  exact_extend = λ r s. record r { have = r.have ++ s };
  exact_resume = λ r a. (record r { have = r.have ++ gained a }, exact_answer r.target r.have a);
  SocketReadToEnd = Bytes;
  SocketReadToEndError = Unit;
  to_end_new = [];
  to_end_extend = λ r s. r ++ s;
  to_end_resume = λ r a. (r ++ gained a, to_end_result r a);
  SocketWrite = Bytes;
  SocketWriteError = Unit;
  write_new = λ s. s;
  write_resume = λ s a. (unwritten s a, write_result (unwritten s a));
}

pub record Wire : Type 0 where
  pub sent : Bytes
  pub pending : Bytes

abbrev pub arriving : Bytes → Wire
arriving s = record { sent = []; pending = s }

abbrev pub read_byte : Bytes → Bytes → Wire × Answer
read_byte w [] = (record { sent = w; pending = [] }, delivered [])
read_byte w (c ∷ s) = (record { sent = w; pending = s }, delivered (c ∷ []))

abbrev pub byte_by_byte : Wire → Ask → Wire × Answer
byte_by_byte s read = read_byte s.sent s.pending
byte_by_byte s (write bytes) = (record s { sent = s.sent ++ take 1 bytes }, wrote 1)

abbrev pub sample_transport : Transport sample_io
sample_transport = record {
  Stream = Wire;
  handle = byte_by_byte;
  pending = λ s. s.pending;
  sent = λ s. s.sent;
}
