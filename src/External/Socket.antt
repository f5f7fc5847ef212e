-- ===== src/External/Socket.antt =====
-- The io-socket crate: buffers, the four socket coroutines and what their `resume` returns. A
-- coroutine is resumed with the runtime's last answer, if any, and gives its next state.
pub mod Transport
pub mod Runtime
use io_http.Prelude.{ℕ, Option, List}
use io_http.Text.{Bytes}

-- A `Vec<u8>` that is handed out and taken back: its bytes and its capacity.
pub record Buffer : Type 0 where
  pub bytes : Bytes
  pub capacity : ℕ

pub data SocketReadResult (Input Error : Type 0) : Type 0 where
  ok : Buffer → ℕ → SocketReadResult Input Error
  err : Error → SocketReadResult Input Error
  io : Input → SocketReadResult Input Error
  eof : SocketReadResult Input Error

pub data SocketWriteResult (Input Error : Type 0) : Type 0 where
  ok : SocketWriteResult Input Error
  err : Error → SocketWriteResult Input Error
  io : Input → SocketWriteResult Input Error
  eof : SocketWriteResult Input Error

pub data SocketReadExactResult (Input Error : Type 0) : Type 0 where
  ok : Bytes → SocketReadExactResult Input Error
  err : Error → SocketReadExactResult Input Error
  io : Input → SocketReadExactResult Input Error

pub data SocketReadToEndResult (Input Error : Type 0) : Type 0 where
  ok : Bytes → SocketReadToEndResult Input Error
  err : Error → SocketReadToEndResult Input Error
  io : Input → SocketReadToEndResult Input Error

pub record IoSocket : Type 1 where
  pub SocketInput : Type 0
  pub SocketOutput : Type 0
  pub SocketRead : Type 0
  pub SocketReadError : Type 0
  pub read_default : SocketRead
  pub read_with_capacity : ℕ → SocketRead
  pub read_replace : SocketRead → Buffer → SocketRead
  pub read_resume :
      SocketRead → Option SocketOutput → SocketRead × SocketReadResult SocketInput SocketReadError
  pub SocketReadExact : Type 0
  pub SocketReadExactError : Type 0
  pub exact_new : ℕ → SocketReadExact
  pub exact_extend : SocketReadExact → Bytes → SocketReadExact
  pub exact_resume :
      SocketReadExact
      → Option SocketOutput
      → SocketReadExact × SocketReadExactResult SocketInput SocketReadExactError
  pub SocketReadToEnd : Type 0
  pub SocketReadToEndError : Type 0
  pub to_end_new : SocketReadToEnd
  pub to_end_extend : SocketReadToEnd → Bytes → SocketReadToEnd
  pub to_end_resume :
      SocketReadToEnd
      → Option SocketOutput
      → SocketReadToEnd × SocketReadToEndResult SocketInput SocketReadToEndError
  pub SocketWrite : Type 0
  pub SocketWriteError : Type 0
  pub write_new : Bytes → SocketWrite
  pub write_resume :
      SocketWrite
      → Option SocketOutput
      → SocketWrite × SocketWriteResult SocketInput SocketWriteError
