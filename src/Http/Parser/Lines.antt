-- ===== src/Http/Parser/Lines.antt =====
-- `parse_request_line`, `parse_header_line`, and what `parse` does with a line of the header.
use linux_cpp_web_server.Common.{
  ℕ, ◌+◌, Bool, true, false, not, ◌||◌, Option, none, some, [], ◌∷◌, ◌++◌, ◌==◌, if◌then◌else◌,
  take, drop,
}
use linux_cpp_web_server.Common.Bytes.{
  Bytes, codes, bytes_eq, is_empty, is_space, drop_while, take_while, drop_while_end, find_char,
}
use linux_cpp_web_server.Common.Maps
use linux_cpp_web_server.Common.Maps.{bytes_key}
use linux_cpp_web_server.Http.Request.{
  HttpRequest, HttpMethod, get, post, head, unknown, get_header, is_multipart, get_boundary,
}
use linux_cpp_web_server.Http.Parser.State.{HttpParser, body, boundary_search, done}

-- `iss >> word`: the next word and what follows it.
unfoldable pub next_word : Bytes → Option (Bytes × Bytes)
next_word s = elim (drop_while is_space s) [
  | [] ↦ none
  | c ∷ cs ↦
      some
        (take_while (λ x. not (is_space x)) (c ∷ cs), drop_while (λ x. not (is_space x)) (c ∷ cs))
]

unfoldable pub method_of : Bytes → HttpMethod
method_of m =
    if bytes_eq m (codes "GET")
    then get
    else if bytes_eq m (codes "POST")
    then post
    else if bytes_eq m (codes "HEAD")
    then head
    else unknown

infixl 5 ◌>>=◌
abbrev ◌>>=◌ {ℓ κ} : {A : Type ℓ} {B : Type κ} → Option A → (A → Option B) → Option B
none >>= f = none
some a >>= f = f a

unfoldable pub parse_request_line : Bytes → HttpRequest → Option HttpRequest
unfolding next_word method_of
parse_request_line line r = do
  (method_str, after_method) ← next_word line
  (path, after_path) ← next_word after_method
  (version, after_version) ← next_word after_path
  some (record r { method = method_of method_str; path = path; version = version })

abbrev pub is_blank : ℕ → Bool
is_blank c = c == b' ' || c == 9

unfoldable pub trim : Bytes → Bytes
trim s = drop_while_end is_blank (drop_while is_blank s)

unfoldable pub parse_header_line : Bytes → HttpRequest → Option HttpRequest
unfolding trim
parse_header_line line r = elim (find_char b':' line) [
  | none ↦ none
  | some colon_pos ↦ some (record r {
    headers = Maps.put (trim (take colon_pos line)) (trim (drop (colon_pos + 1) line)) r.headers;
  })
]

-- The empty line: the state after the header. `false` is `ParseResult::Error`.
unfoldable pub end_of_headers : HttpParser → Bool × HttpParser
end_of_headers p =
    if is_multipart p.request
    then (
      not (is_empty (get_boundary p.request)),
      record p {
        boundary = codes "--" ++ get_boundary p.request;
        state = if is_empty (get_boundary p.request) then p.state else boundary_search;
      },
    )
    else elim (get_header (codes "Content-Length") p.request) [
      | none ↦ (true, record p { state = done })
      | some v ↦ (true, record p { state = body })
    ]

unfoldable pub header_line : Bytes → HttpParser → Bool × HttpParser
header_line [] p = end_of_headers p
header_line (c ∷ cs) p = elim (parse_header_line (c ∷ cs) p.request) [
  | none ↦ (false, p)
  | some r ↦ (true, record p { request = r })
]
