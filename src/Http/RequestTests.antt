-- ===== src/Http/RequestTests.antt =====
-- Requests with concrete bytes.
use linux_cpp_web_server.Common.{
  ℕ, ◌≡◌, refl, Bool, true, false, none, some, List, [], ◌∷◌, ◌++◌, arith,
}
use linux_cpp_web_server.Common.Bytes.{
  Bytes, codes, bytes_eq, drop_while, take_while, drop_while_end, same_letters, to_lower, stoul,
  unsigned_value, digits_value,
}
use linux_cpp_web_server.Common.Bytes.Search.{NoCr}
use linux_cpp_web_server.Common.Maps
use linux_cpp_web_server.Common.{◌+◌}
use linux_cpp_web_server.Http.Response
use linux_cpp_web_server.Http.Response.{HttpResponse}
use linux_cpp_web_server.Http.Connection
use linux_cpp_web_server.Http.Connection.{FileOpen, cannot_open}
use linux_cpp_web_server.Http.Request.{HttpRequest, is_multipart, get_header, find_header, mentions}
use linux_cpp_web_server.Http.Request
use linux_cpp_web_server.Http.Parser.{Ended, returned, parse}
use linux_cpp_web_server.Http.Parser.Returns.{parse-returns}
use linux_cpp_web_server.Common.Bytes.{crlf}
use linux_cpp_web_server.Http.Parser.State.{boundary_search}
use linux_cpp_web_server.Http.Parser.State.{HttpParser, complete, incomplete, done, body}
use linux_cpp_web_server.Http.Parser.State
use linux_cpp_web_server.Http.Parser.Lines.{trim, method_of}
use linux_cpp_web_server.Http.Parser.Words.{IsWord, print_line, IsField}
use linux_cpp_web_server.Http.Parser.RoundTrip.{print_request, request_of, parse-print_request}
use linux_cpp_web_server.Http.Parser.RoundTrip.WithBody.{
  with_body, parse-print_request_body, parse-print_request_empty,
}

abbrev fresh : HttpParser
fresh = State.init (codes "/tmp")

abbrev yes_open : Bytes → Bool
yes_open f = true

abbrev clock : ℕ → ℕ
clock n = n

post-IsWord : IsWord (codes "POST")
post-IsWord = record { full = λ e. cc; solid = (refl, (refl, (refl, (refl, tt)))) }

path-IsWord : IsWord (codes "/a")
path-IsWord = record { full = λ e. cc; solid = (refl, (refl, tt)) }

version-IsWord : IsWord (codes "HTTP")
version-IsWord = record { full = λ e. cc; solid = (refl, (refl, (refl, (refl, tt)))) }

line-NoCr : NoCr (print_line (codes "POST") (codes "/a") (codes "HTTP"))
line-NoCr = ground arith

host-IsField : IsField (codes "Host", codes "me")
unfolding trim drop_while drop_while_end
host-IsField = record {
  name_plain = ground arith;
  name_trimmed = refl;
  name_one_line = ground arith;
  value_trimmed = refl;
  value_one_line = ground arith;
}

abbrev length_field : Bytes → Bytes × Bytes
length_field n = (codes "Content-Length", n)

two-IsField : IsField (length_field (codes "2"))
unfolding trim drop_while drop_while_end
two-IsField = record {
  name_plain = ground arith;
  name_trimmed = refl;
  name_one_line = ground arith;
  value_trimmed = refl;
  value_one_line = ground arith;
}

zero-IsField : IsField (length_field (codes "0"))
unfolding trim drop_while drop_while_end
zero-IsField = record {
  name_plain = ground arith;
  name_trimmed = refl;
  name_one_line = ground arith;
  value_trimmed = refl;
  value_one_line = ground arith;
}

abbrev request : List (Bytes × Bytes) → HttpRequest
request fs = request_of (codes "POST") (codes "/a") (codes "HTTP") fs fresh.request

host_plain : is_multipart (request ((codes "Host", codes "me") ∷ [])) ≡ false
unfolding is_multipart get_header find_header mentions same_letters to_lower bytes_eq Maps.put
    State.init Request.init method_of
host_plain = refl

host_sizeless :
    get_header (codes "Content-Length") (request ((codes "Host", codes "me") ∷ [])) ≡ none
unfolding get_header find_header same_letters to_lower bytes_eq Maps.put State.init Request.init
    method_of
host_sizeless = refl

length_plain : (n : Bytes) → is_multipart (request (length_field n ∷ [])) ≡ false
unfolding is_multipart get_header find_header mentions same_letters to_lower bytes_eq Maps.put
    State.init Request.init method_of
length_plain n = refl

length_found :
    (n : Bytes) → get_header (codes "Content-Length") (request (length_field n ∷ [])) ≡ some n
unfolding get_header find_header same_letters to_lower bytes_eq Maps.put State.init Request.init
    method_of
length_found n = refl

stoul_two : stoul (codes "2") ≡ some 2
unfolding stoul unsigned_value digits_value take_while drop_while
stoul_two = refl

stoul_zero : stoul (codes "0") ≡ some 0
unfolding stoul unsigned_value digits_value take_while drop_while
stoul_zero = refl

parse-print_request_example :
    parse yes_open clock
      (print_request
        (codes "POST")
        (codes "/a")
        (codes "HTTP")
        ((codes "Host", codes "me") ∷ [])
        (codes "next"))
      fresh
    ≡ some (
        returned complete
          (codes "next")
          (record fresh { request = request ((codes "Host", codes "me") ∷ []); state = done }))
unfolding State.init
parse-print_request_example =
    parse-print_request yes_open clock (codes "POST") (codes "/a") (codes "HTTP")
      ((codes "Host", codes "me") ∷ []) (codes "next") fresh refl post-IsWord path-IsWord
      version-IsWord line-NoCr (host-IsField, tt) host_plain host_sizeless

parse-print_request_body_example :
    parse yes_open clock
      (print_request
        (codes "POST")
        (codes "/a")
        (codes "HTTP")
        (length_field (codes "2") ∷ [])
        (codes "hi" ++ codes "next"))
      fresh
    ≡ some (
        returned complete (codes "next") (record fresh {
          request = with_body (codes "hi") (request (length_field (codes "2") ∷ []));
          state = done;
        }))
unfolding State.init Request.init
parse-print_request_body_example =
    parse-print_request_body yes_open clock (codes "POST") (codes "/a") (codes "HTTP")
      (length_field (codes "2") ∷ []) (codes "2") (codes "hi") (codes "next") fresh refl post-IsWord
      path-IsWord version-IsWord line-NoCr (two-IsField, tt) (length_plain (codes "2"))
      (length_found (codes "2")) stoul_two refl (omega arith) (λ e. cc)

parse-print_request_empty_example :
    parse yes_open clock
      (print_request (codes "POST") (codes "/a") (codes "HTTP") (length_field (codes "0") ∷ []) [])
      fresh
    ≡ some (
        returned incomplete []
          (record fresh { request = request (length_field (codes "0") ∷ []); state = body }))
unfolding State.init
parse-print_request_empty_example =
    parse-print_request_empty yes_open clock (codes "POST") (codes "/a") (codes "HTTP")
      (length_field (codes "0") ∷ []) (codes "0") fresh refl post-IsWord path-IsWord version-IsWord
      line-NoCr (zero-IsField, tt) (length_plain (codes "0")) (length_found (codes "0")) stoul_zero

abbrev plain_answer : HttpRequest → ℕ → HttpResponse × ℕ
plain_answer r n = (record Response.init { body = codes "ok" }, n + 1)

abbrev no_files : Bytes → FileOpen
no_files f = cannot_open

abbrev hi_text : Bytes
hi_text =
    print_request (codes "POST") (codes "/a") (codes "HTTP") (length_field (codes "2") ∷ [])
      (codes "hi" ++ [])

-- A parser in the middle of a multipart body.
abbrev between_parts : HttpParser
between_parts = record fresh { state = boundary_search; boundary = codes "--b" }

parse-returns_example :
    (e : Ended) × (parse yes_open clock
        (codes "--b" ++ crlf ++ codes "Content-Disposition: form-data")
        between_parts
      ≡ some e)
parse-returns_example =
    parse-returns yes_open clock (codes "--b" ++ crlf ++ codes "Content-Disposition: form-data")
      between_parts
