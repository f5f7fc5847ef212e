-- ===== src/Rfc9112/Send/Types.antt =====
-- The data types of the HTTP/1.1 exchange (src/rfc9112/send.rs).
use io_http.Prelude.{Bool, Option}
use io_http.Text.{Bytes}
use io_http.External.Url.{UrlApi}
use io_http.External.Httparse.{Httparse}
use io_http.External.Socket.{IoSocket}
use io_http.Rfc9110.Request.{HttpRequest}
use io_http.Rfc9110.Response.{HttpResponse, ResponseBuilder}
use io_http.Rfc9112.Chunk.{HttpChunksRead, HttpChunksReadError}

pub data Http11SendError (io : IoSocket) (parser : Httparse) : Type 0 where
  unexpected_eof : Http11SendError io parser
  parse_response_headers : parser.Error → Http11SendError io parser
  socket_read : io.SocketReadError → Http11SendError io parser
  http_chunks_read : HttpChunksReadError io → Http11SendError io parser
  socket_read_exact : io.SocketReadExactError → Http11SendError io parser
  socket_read_to_end : io.SocketReadToEndError → Http11SendError io parser
  socket_write : io.SocketWriteError → Http11SendError io parser

-- `ok request response keep_alive` and `redirect url request response keep_alive same_origin`.
pub data Http11SendResult (io : IoSocket) (url : UrlApi) (parser : Httparse) : Type 0 where
  ok : HttpRequest url.Url → HttpResponse → Bool → Http11SendResult io url parser
  io_request : io.SocketInput → Http11SendResult io url parser
  redirect :
      url.Url → HttpRequest url.Url → HttpResponse → Bool → Bool → Http11SendResult io url parser
  err : Http11SendError io parser → Http11SendResult io url parser

pub data State (io : IoSocket) : Type 0 where
  serializing : State io
  sending : io.SocketWrite → State io
  receive_headers : io.SocketRead → Bytes → State io
  receive_chunked_body : HttpChunksRead io → ResponseBuilder → State io
  receive_lengthed_body : io.SocketReadExact → ResponseBuilder → State io
  receive_body : io.SocketReadToEnd → ResponseBuilder → State io

pub record Http11Send (io : IoSocket) (url : UrlApi) : Type 0 where
  pub request : Option (HttpRequest url.Url)
  pub state : State io
  pub is_conn_closed : Bool
