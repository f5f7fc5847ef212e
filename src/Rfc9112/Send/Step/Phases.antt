-- ===== src/Rfc9112/Send/Step/Phases.antt =====
-- The phases of an HTTP/1.1 exchange, as the interfaces that the two exchanges share.
use io_http.Prelude.{[], ◌≡◌, refl, not, Bool, false, none, some}
use io_http.Text.{Bytes}
use io_http.External.Memchr.{Memchr}
use io_http.External.Url.{UrlApi}
use io_http.External.Httparse.{Httparse}
use io_http.External.Socket.{IoSocket}
use io_http.Exchange.Machine.{Machine, Writer, HeadReader, Filler, Drainer}
use io_http.Rfc9110.Request.{HttpRequest}
use io_http.Rfc9110.Response.{HttpResponse, ResponseBuilder, build}
use io_http.Rfc9110.Redirect.{same_origin, redirect_target}
use io_http.Rfc9112.Send.Types.{
  unexpected_eof, socket_read_exact, Http11SendResult, io_request, err, State, sending,
  receive_headers, receive_lengthed_body, receive_body, Http11Send,
}
use io_http.Rfc9112.Send.Step.{finish, step, input_of}
use io_http.Rfc9112.Send.Step.Passes.{
  step-sending_asks, step-sending_ends, step-headers_asks, step-headers_eof, step-headers_more,
}
use io_http.Rfc9112.Send.Step.BodyPasses.{
  step-lengthed_asks, step-lengthed_ends, step-lengthed_err, step-to_end_asks, step-to_end_ends,
}

module _ (io : IoSocket) (url : UrlApi) (parser : Httparse) where
  -- The exchange comes to its end with the result of `finish`.
  pub input_of-finish :
      (q : HttpRequest url.Url) (response : HttpResponse) (keep : Bool)
      → input_of io url parser (finish io url parser q response keep) ≡ none
  unfolding finish
  input_of-finish q response keep =
      elim (redirect_target url q response)
        as (λ x.
          input_of io url parser (elim x [
            | none ↦ Http11SendResult.ok q response keep
            | some target ↦
                Http11SendResult.redirect target q response keep (same_origin url q.url target)
          ])
          ≡ none) [ none ↦ refl | some target ↦ refl ]

  module _ (mem : Memchr) where
    abbrev pub machine : Machine io (Http11Send io url) (Http11SendResult io url parser)
    machine = record {
      step = λ fuel. step io url parser mem fuel;
      input_of = input_of io url parser;
      asks_for = io_request;
      input_of-asks_for = λ i. refl;
    }

    module _ (q : HttpRequest url.Url) where
      -- The exchange of `q` in a state, and whether the connection closes.
      abbrev pub exchanging : Bool → State io → Http11Send io url
      exchanging closed st = record { request = some q; state = st; is_conn_closed = closed }

      abbrev pub writer : Writer machine (exchanging false (receive_headers io.read_default []))
      writer = record {
        at = λ w. exchanging false (sending w);
        asks = λ fuel arg w next i e.
            step-sending_asks io url parser mem fuel (exchanging false (sending w)) arg w next i
              refl e;
        ends = λ fuel arg w next e.
            step-sending_ends io url parser mem fuel (exchanging false (sending w)) arg w next refl
              e;
      }

      abbrev pub head_reader : HeadReader machine parser (err unexpected_eof)
      head_reader = record {
        at = λ read headers. exchanging false (receive_headers read headers);
        cut_ends = refl;
        asks = λ fuel arg read next headers i e.
            step-headers_asks io url parser mem fuel
              (exchanging false (receive_headers read headers)) arg read next headers i refl e;
        eof = λ fuel arg read next headers e.
            step-headers_eof io url parser mem fuel
              (exchanging false (receive_headers read headers)) arg read next headers refl e;
        more = λ fuel arg read next headers bytes buf n got content partial.
            step-headers_more io url parser mem fuel
              (exchanging false (receive_headers read headers)) arg read next headers bytes buf n
              refl got content partial;
      }

      module _ (closed : Bool) (response : ResponseBuilder) where
        -- The result of an exchange with this body.
        abbrev pub answer : Bytes → Http11SendResult io url parser
        answer body = finish io url parser q (build response body) (not closed)

        abbrev pub filler : Filler machine
        filler = record {
          at = λ read. exchanging closed (receive_lengthed_body read response);
          answer = answer;
          failure = λ e. err (socket_read_exact e);
          answer_ends = λ body. input_of-finish q (build response body) (not closed);
          failure_ends = λ e. refl;
          asks = λ fuel arg read next i e.
              step-lengthed_asks io url parser mem fuel
                (exchanging closed (receive_lengthed_body read response)) arg read next response i
                refl e;
          ends = λ arg read next body e. (
            _,
            λ fuel.
                step-lengthed_ends io url parser mem fuel
                  (exchanging closed (receive_lengthed_body read response)) q refl body response arg
                  read next refl e,
          );
          errs = λ arg read next error e. (
            _,
            λ fuel.
                step-lengthed_err io url parser mem fuel
                  (exchanging closed (receive_lengthed_body read response)) arg read next response
                  error refl e,
          );
        }

        abbrev pub drainer : Drainer machine
        drainer = record {
          at = λ read. exchanging closed (receive_body read response);
          answer = answer;
          answer_ends = λ body. input_of-finish q (build response body) (not closed);
          asks = λ fuel arg read next i e.
              step-to_end_asks io url parser mem fuel
                (exchanging closed (receive_body read response)) arg read next response i refl e;
          ends = λ arg read next body e. (
            _,
            λ fuel.
                step-to_end_ends io url parser mem fuel
                  (exchanging closed (receive_body read response)) q refl body response arg read
                  next refl e,
          );
        }
