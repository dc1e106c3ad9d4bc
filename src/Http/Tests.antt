-- ===== src/Http/Tests.antt =====
-- Requests in pieces, and routes.
use linux_cpp_web_server.Common.{◌≡◌, refl, true, none, some, ◌++◌, arith}
use linux_cpp_web_server.Common.Bytes.{
  Bytes, codes, crlf, bytes_eq, drop_while, take_while, find_char, find_if,
}
use linux_cpp_web_server.Common.Bytes.Search.{NoCr}
use linux_cpp_web_server.Http.Request.{HttpRequest, HttpMethod, get, post}
use linux_cpp_web_server.Http.Request
use linux_cpp_web_server.Http.Parser.{returned, parse}
use linux_cpp_web_server.Http.Parser.State.{HttpParser, request_line, headers, incomplete, error}
use linux_cpp_web_server.Http.Parser.State
use linux_cpp_web_server.Http.Parser.Lines.{parse_request_line, next_word, method_of}
use linux_cpp_web_server.Http.Parser.Pieces.{parse-pieces}

abbrev fresh : HttpParser
fresh = State.init (codes "/tmp")

abbrev line : Bytes
line = codes "GET / HTTP/1.1"

abbrev part : Bytes
part = codes "Host: a"

abbrev got : HttpRequest
got = record Request.init { method = get; path = codes "/"; version = codes "HTTP/1.1" }

line_read : parse_request_line line fresh.request ≡ some got
unfolding parse_request_line next_word method_of drop_while take_while bytes_eq State.init
    Request.init
line_read = refl

line-NoCr : NoCr line
line-NoCr = ground arith

part-NoCr : NoCr part
part-NoCr = ground arith

line_no_colon : find_char b':' line ≡ none
unfolding find_if
line_no_colon = refl

parse-pieces_example :
    let q : HttpParser = record fresh { request = got; state = headers } in
    (parse (λ f. true) (λ n. n) (line ++ (crlf ++ part)) fresh
      ≡ some (returned incomplete (line ++ (crlf ++ part)) q))
    × (parse (λ f. true) (λ n. n) (line ++ (crlf ++ part) ++ crlf) q
        ≡ some (returned error (line ++ (crlf ++ part) ++ crlf) q))
unfolding State.init
parse-pieces_example =
    parse-pieces (λ f. true) (λ n. n) line part crlf fresh got refl line_read line-NoCr
      line_no_colon part-NoCr (λ e. cc)
