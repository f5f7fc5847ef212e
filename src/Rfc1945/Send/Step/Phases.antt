-- ===== src/Rfc1945/Send/Step/Phases.antt =====
-- The phases of an HTTP/1.0 exchange, as the interfaces that the two exchanges share.
use io_http.Prelude.{[], ◌≡◌, refl, Bool, false, none, some}
use io_http.Text.{Bytes}
use io_http.External.Url.{UrlApi}
use io_http.External.Httparse.{Httparse}
use io_http.External.Socket.{IoSocket}
use io_http.Exchange.Machine.{Machine, Writer, HeadReader, Filler, Drainer}
use io_http.Rfc9110.Request.{HttpRequest}
use io_http.Rfc9110.Response.{HttpResponse, ResponseBuilder, build}
use io_http.Rfc9110.Redirect.{same_origin, redirect_target}
use io_http.Rfc1945.Send.Types.{
  unexpected_eof, socket_read_exact, Http10SendResult, io_request, err, State, sending,
  receive_headers, receive_lengthed_body, receive_body, Http10Send,
}
use io_http.Rfc1945.Send.Step.{finish, step, input_of}
use io_http.Rfc1945.Send.Step.Passes.{
  step-sending_asks, step-sending_ends, step-headers_asks, step-headers_eof, step-headers_more,
}
use io_http.Rfc1945.Send.Step.BodyPasses.{
  step-lengthed_asks, step-lengthed_ends, step-lengthed_err, step-to_end_asks, step-to_end_ends,
}

module _ (io : IoSocket) (url : UrlApi) (parser : Httparse) where
  -- The exchange comes to its end with the result of `finish`.
  pub input_of-finish :
      (q : HttpRequest url.Url) (response : HttpResponse) (keep : Bool)
      → input_of io url parser (finish io url parser q response keep) ≡ none
  unfolding finish
  input_of-finish q response keep =
      elim (redirect_target url q response)
        as (λ x.
          input_of io url parser (elim x [
            | none ↦ Http10SendResult.ok q response keep
            | some target ↦
                Http10SendResult.redirect target q response keep (same_origin url q.url target)
          ])
          ≡ none) [ none ↦ refl | some target ↦ refl ]

  abbrev pub machine : Machine io (Http10Send io url) (Http10SendResult io url parser)
  machine = record {
    step = λ fuel. step io url parser;
    input_of = input_of io url parser;
    asks_for = io_request;
    input_of-asks_for = λ i. refl;
  }

  module _ (q : HttpRequest url.Url) where
    -- The exchange of `q` in a state, and whether the connection is kept alive.
    abbrev pub exchanging : Bool → State io → Http10Send io url
    exchanging keep st = record { request = some q; state = st; keep_alive = keep }

    abbrev pub writer : Writer machine (exchanging false (receive_headers io.read_default []))
    writer = record {
      at = λ w. exchanging false (sending w);
      asks = λ fuel arg w next i e.
          step-sending_asks io url parser (exchanging false (sending w)) arg w next i refl e;
      ends = λ fuel arg w next e.
          step-sending_ends io url parser (exchanging false (sending w)) arg w next refl e;
    }

    abbrev pub head_reader : HeadReader machine parser (err unexpected_eof)
    head_reader = record {
      at = λ read headers. exchanging false (receive_headers read headers);
      cut_ends = refl;
      asks = λ fuel arg read next headers i e.
          step-headers_asks io url parser (exchanging false (receive_headers read headers)) arg read
            next headers i refl e;
      eof = λ fuel arg read next headers e.
          step-headers_eof io url parser (exchanging false (receive_headers read headers)) arg read
            next headers refl e;
      more = λ fuel arg read next headers bytes buf n got content partial.
          step-headers_more io url parser (exchanging false (receive_headers read headers)) arg read
            next headers bytes buf n refl got content partial;
    }

    module _ (keep : Bool) (response : ResponseBuilder) where
      -- The result of an exchange with this body.
      abbrev pub answer : Bytes → Http10SendResult io url parser
      answer body = finish io url parser q (build response body) keep

      abbrev pub filler : Filler machine
      filler = record {
        at = λ read. exchanging keep (receive_lengthed_body read response);
        answer = answer;
        failure = λ e. err (socket_read_exact e);
        answer_ends = λ body. input_of-finish q (build response body) keep;
        failure_ends = λ e. refl;
        asks = λ fuel arg read next i e.
            step-lengthed_asks io url parser (exchanging keep (receive_lengthed_body read response))
              arg read next response i refl e;
        ends = λ arg read next body e. (
          _,
          λ fuel.
              step-lengthed_ends io url parser
                (exchanging keep (receive_lengthed_body read response)) q refl body response arg
                read next refl e,
        );
        errs = λ arg read next error e. (
          _,
          λ fuel.
              step-lengthed_err io url parser
                (exchanging keep (receive_lengthed_body read response)) arg read next response error
                refl e,
        );
      }

      abbrev pub drainer : Drainer machine
      drainer = record {
        at = λ read. exchanging keep (receive_body read response);
        answer = answer;
        answer_ends = λ body. input_of-finish q (build response body) keep;
        asks = λ fuel arg read next i e.
            step-to_end_asks io url parser (exchanging keep (receive_body read response)) arg read
              next response i refl e;
        ends = λ arg read next body e. (
          _,
          λ fuel.
              step-to_end_ends io url parser (exchanging keep (receive_body read response)) q refl
                body response arg read next refl e,
        );
      }
