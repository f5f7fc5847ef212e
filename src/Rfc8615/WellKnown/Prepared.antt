-- ===== src/Rfc8615/WellKnown/Prepared.antt =====
-- The request that a discovery prepares, and the bytes that it is written as.
use io_http.Prelude.{[], ◌++◌, ◌≡◌, ◌∙◌, ap, inl, inr, append_assoc, Option}
use io_http.Text.{Bytes, codes}
use io_http.Text.Radix.{to_decimal}
use io_http.External.Url.{UrlApi, UrlLaws}
use io_http.External.Httparse.{Httparse}
use io_http.External.Socket.{IoSocket}
use io_http.Rfc9110.Request.{HttpRequest, get}
use io_http.Rfc9110.Wire.{
  http_11, query_part, request_line, header_line, header_lines, length_line, serialize,
}
use io_http.Rfc8615.WellKnown.{invalid_base_url, well_known_request, prepare_request}

module _ (io : IoSocket) (url : UrlApi) (parser : Httparse) (laws : UrlLaws url) where
  well_known_bytes :
      (path : Bytes) (query : Option Bytes) (w : Bytes)
      → path ≡ codes "/.well-known/" ++ w
      → serialize (codes "GET") path query http_11 [] []
        ≡ codes "GET /.well-known/"
          ++ (w ++ (query_part query ++ codes " HTTP/1.1\r\ncontent-length: 0\r\n\r\n"))
  unfolding serialize request_line header_lines length_line header_line to_decimal
  well_known_bytes path query w e =
      ap (λ x. serialize (codes "GET") x query http_11 [] []) e
      ∙ ap (λ x. codes "GET /.well-known/" ++ x)
          (append_assoc w (query_part query ++ codes " HTTP/1.1")
              (codes "\r\ncontent-length: 0\r\n\r\n")
            ∙ ap (λ x. w ++ x)
                (append_assoc (query_part query) (codes " HTTP/1.1")
                  (codes "\r\ncontent-length: 0\r\n\r\n")))

  -- A base URL that parses gives a request with the same scheme, host and port, which an HTTP/1.1
  -- exchange writes as a GET of `/.well-known/` and the service, with the query of the base URL if
  -- it has one, and with a single header line, a Content-Length of 0: there is no Host line. This
  -- is so if the URL has a path at all and the new path needs no encoding. A base URL that does not
  -- parse gives the error with the URL.
  pub prepare_request-serialize :
      (base service : Bytes)
      → ((u : url.Url)
          → url.parse base ≡ inr u
          → laws.Based u
          → laws.Plain (codes "/.well-known/" ++ service)
          → (q : HttpRequest url.Url) × (prepare_request io url parser base service ≡ inr q)
            × (url.scheme q.url ≡ url.scheme u)
            × (url.host q.url ≡ url.host u)
            × (url.port q.url ≡ url.port u)
            × (serialize q.method (url.path q.url) (url.query q.url) http_11 q.headers q.body
                ≡ codes "GET /.well-known/"
                  ++ (service
                      ++ (query_part (url.query u)
                          ++ codes " HTTP/1.1\r\ncontent-length: 0\r\n\r\n"))))
        × ((e : url.ParseError)
            → url.parse base ≡ inl e
            → prepare_request io url parser base service ≡ inl (invalid_base_url e base))
  unfolding prepare_request well_known_request get
  prepare_request-serialize base service = (
    λ u parsed based plain.
        let path = codes "/.well-known/" ++ service in
        (
          get (url.set_path u path),
          ap (well_known_request io url parser base service) parsed,
          laws.scheme-set_path u path,
          laws.host-set_path u path,
          laws.port-set_path u path,
          well_known_bytes (url.path (url.set_path u path)) (url.query (url.set_path u path))
                service (laws.path-set_path u path based plain)
              ∙ ap
                  (λ x.
                    codes "GET /.well-known/"
                    ++ (service
                        ++ (query_part x ++ codes " HTTP/1.1\r\ncontent-length: 0\r\n\r\n")))
                  (laws.query-set_path u path),
        ),
    λ e failed. ap (well_known_request io url parser base service) failed,
  )
