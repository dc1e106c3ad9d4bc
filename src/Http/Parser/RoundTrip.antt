-- ===== src/Http/Parser/RoundTrip.antt =====
-- A request that is printed and parsed.
pub mod WithBody
use linux_cpp_web_server.Common.{
  ℕ, zero, suc, ◌+◌, ◌-◌, ◌%◌, ◌^◌, ◌<◌, ◌≤◌, ◌≡◌, ◌≢◌, refl, ap, sym, ◌∙◌, Bool, true, false, not,
  Option, none, some, List, [], ◌∷◌, ◌++◌, ◌==◌, ==_refl, append_assoc, append-nil, if◌then◌else◌,
  length, length-append, take, drop, drop_at, take_at, All, arith, Bool-cases, inl, inr,
}
use linux_cpp_web_server.Common.Bytes.{Bytes, codes, crlf, stoul}
use linux_cpp_web_server.Common.Bytes.Search.{NoCr}
use linux_cpp_web_server.Http.Request.{HttpRequest, get_header, is_multipart}
use linux_cpp_web_server.Http.Parser.{
  next, leave, returned, request_line_step, header_line_step, body_round, parse_step, parse_loop,
  parse,
}
use linux_cpp_web_server.Http.Parser.Loop.{
  parse_loop-next, parse_loop-done, parse_step-request_line, parse_step-header, line-ne_nil,
}
use linux_cpp_web_server.Http.Parser.State.{
  HttpParser, is_done, request_line, headers, body, done, complete, incomplete, error,
}
use linux_cpp_web_server.Http.Parser.Lines.{
  method_of, parse_request_line, header_line, end_of_headers,
}
use linux_cpp_web_server.Http.Parser.Body.{decode_form, body_step, take_body, bytes_to_read}
use linux_cpp_web_server.Http.Parser.Words.{
  IsWord, print_line, parse_request_line-print, IsField, print_field, put_field, header_line-print,
  print_field-NoCr,
}

-- The header and what follows it.
abbrev pub print_fields : List (Bytes × Bytes) → Bytes → Bytes
print_fields [] rest = crlf ++ rest
print_fields (f ∷ fs) rest = print_field f ++ (crlf ++ print_fields fs rest)

abbrev pub print_request : Bytes → Bytes → Bytes → List (Bytes × Bytes) → Bytes → Bytes
print_request method path version fs rest =
    print_line method path version ++ (crlf ++ print_fields fs rest)

abbrev pub put_fields : List (Bytes × Bytes) → HttpRequest → HttpRequest
put_fields [] r = r
put_fields (f ∷ fs) r = put_fields fs (put_field f r)

-- The request that was printed, over what the parser held before.
abbrev pub request_of : Bytes → Bytes → Bytes → List (Bytes × Bytes) → HttpRequest → HttpRequest
request_of method path version fs r =
    put_fields fs (record r { method = method_of method; path = path; version = version })

abbrev rounds : List (Bytes × Bytes) → ℕ → ℕ
rounds [] fuel = fuel
rounds (f ∷ fs) fuel = suc (rounds fs fuel)

rounds-length : (fs : List (Bytes × Bytes)) (fuel : ℕ) → rounds fs fuel ≡ length fs + fuel
rounds-length [] fuel = omega arith
rounds-length (f ∷ fs) fuel = omega (arith, rounds-length fs fuel)

length-print_fields :
    (fs : List (Bytes × Bytes)) (rest : Bytes) → length fs + 2 ≤ length (print_fields fs rest)
length-print_fields [] rest = omega arith
length-print_fields (f ∷ fs) rest = omega (
  arith,
  length-append (print_field f) (crlf ++ print_fields fs rest),
  length-print_fields fs rest,
)

-- The buffer has bytes enough for a round for each field, and two more.
enough :
    (line : Bytes) (fs : List (Bytes × Bytes)) (rest : Bytes)
    → length (line ++ (crlf ++ print_fields fs rest))
      ≡ rounds fs (suc (suc (length (line ++ (crlf ++ print_fields fs rest)) - length fs - 2)))
enough line fs rest = omega (
  arith,
  length-append line (crlf ++ print_fields fs rest),
  length-print_fields fs rest,
  rounds-length fs (suc (suc (length (line ++ (crlf ++ print_fields fs rest)) - length fs - 2))),
)

module _ (can_open : Bytes → Bool) (time : ℕ → ℕ) where
  fields_loop :
      (fs : List (Bytes × Bytes)) (buffer rest : Bytes) (p : HttpParser) (fuel : ℕ)
      → p.state ≡ headers
      → All IsField fs
      → parse_loop can_open time (rounds fs fuel) buffer (print_fields fs rest) p
        ≡ parse_loop can_open time fuel buffer
            (crlf ++ rest)
            (record p { request = put_fields fs p.request })
  unfolding header_line_step
  fields_loop [] buffer rest p fuel st h = refl
  fields_loop (f ∷ fs) buffer rest p fuel st h =
      let q : HttpParser = record p { request = put_field f p.request } in
      let after = print_fields fs rest in
      let step : header_line_step (print_field f) after p ≡ next after q =
        rw (header_line_step, header_line-print f p h.0) refl in
      parse_loop-next can_open time (rounds fs fuel) buffer (print_field f ++ (crlf ++ after)) after
        p q (line-ne_nil (print_field f) after)
        (parse_step-header can_open time (print_field f) after p st (print_field-NoCr f h.0)
          ∙ ap some step)
        (ap is_done st)
      ∙ fields_loop fs buffer rest q fuel st h.1

  -- Up to the empty line.
  pub head_loop :
      (method path version : Bytes) (fs : List (Bytes × Bytes)) (rest : Bytes) (p : HttpParser)
      → p.state ≡ request_line
      → IsWord method
      → IsWord path
      → IsWord version
      → NoCr (print_line method path version)
      → All IsField fs
      → let whole = print_request method path version fs rest in
        parse can_open time whole p
        ≡ parse_loop can_open time
            (suc (suc (length whole - length fs - 2)))
            whole
            (crlf ++ rest)
            (record p { request = request_of method path version fs p.request; state = headers })
  unfolding parse request_line_step
  head_loop method path version fs rest p st hm hp hv one_line h =
      let line = print_line method path version in
      let whole = print_request method path version fs rest in
      let after = print_fields fs rest in
      let q : HttpParser = record p {
        request = record p.request { method = method_of method; path = path; version = version };
        state = headers;
      } in
      let step : request_line_step line after p ≡ next after q =
        rw (request_line_step, parse_request_line-print method path version p.request hm hp hv)
          refl in
      parse_loop-next can_open time (length whole) whole whole after p q (line-ne_nil line after)
        (parse_step-request_line can_open time line after p st one_line ∙ ap some step) refl
      ∙ ap (λ fuel. parse_loop can_open time fuel whole after q) (enough line fs rest)
      ∙ fields_loop fs whole rest q (suc (suc (length whole - length fs - 2))) refl h

  -- A printed request with no body, in one piece: method, path, version and fields are read back, and
  -- the bytes behind the empty line stay in the buffer.
  pub parse-print_request :
      (method path version : Bytes) (fs : List (Bytes × Bytes)) (rest : Bytes) (p : HttpParser)
      → p.state ≡ request_line
      → IsWord method
      → IsWord path
      → IsWord version
      → NoCr (print_line method path version)
      → All IsField fs
      → is_multipart (request_of method path version fs p.request) ≡ false
      → get_header (codes "Content-Length") (request_of method path version fs p.request) ≡ none
      → parse can_open time (print_request method path version fs rest) p
        ≡ some (
            returned complete rest
              (record p { request = request_of method path version fs p.request; state = done }))
  unfolding header_line_step header_line end_of_headers
  parse-print_request method path version fs rest p st hm hp hv one_line h plain no_length =
      let whole = print_request method path version fs rest in
      let r = request_of method path version fs p.request in
      let q : HttpParser = record p { request = r; state = headers } in
      let e : HttpParser = record p { request = r; state = done } in
      let step : header_line_step [] rest q ≡ next rest e =
        rw (header_line_step, header_line, end_of_headers, plain, no_length) refl in
      head_loop method path version fs rest p st hm hp hv one_line h
      ∙ parse_loop-done can_open time (suc (length whole - length fs - 2)) whole (crlf ++ rest) rest
          q e (line-ne_nil [] rest)
          (parse_step-header can_open time [] rest q refl tt ∙ ap some step) refl
