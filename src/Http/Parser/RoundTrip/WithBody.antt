-- ===== src/Http/Parser/RoundTrip/WithBody.antt =====
-- A printed request with a body, and one whose body is empty.
use linux_cpp_web_server.Common.{
  ℕ, suc, ◌-◌, ◌^◌, ◌<◌, ◌≡◌, ◌≢◌, refl, ap, ◌∙◌, Bool, true, false, some, List, [], ◌∷◌, ◌++◌,
  ==_refl, length, length-append, drop_at, take_at, All, arith,
}
use linux_cpp_web_server.Common.Bytes.{Bytes, codes, crlf, stoul}
use linux_cpp_web_server.Common.Bytes.Search.{NoCr}
use linux_cpp_web_server.Http.Request.{HttpRequest, get_header, is_multipart}
use linux_cpp_web_server.Http.Parser.{
  next, returned, header_line_step, body_round, parse_step, parse_loop, parse,
}
use linux_cpp_web_server.Http.Parser.Loop.{
  parse_loop-next, parse_loop-done, parse_step-header, line-ne_nil,
}
use linux_cpp_web_server.Http.Parser.State.{
  HttpParser, request_line, headers, body, done, complete, incomplete,
}
use linux_cpp_web_server.Http.Parser.Lines.{method_of, header_line, end_of_headers}
use linux_cpp_web_server.Http.Parser.Body.{decode_form, body_step, take_body, bytes_to_read}
use linux_cpp_web_server.Http.Parser.Words.{IsWord, print_line, IsField, put_field}
use linux_cpp_web_server.Http.Parser.RoundTrip.{print_request, put_fields, request_of, head_loop}

put_fields-raw_body :
    (fs : List (Bytes × Bytes)) (r : HttpRequest) → (put_fields fs r).raw_body ≡ r.raw_body
put_fields-raw_body [] r = refl
put_fields-raw_body (f ∷ fs) r = put_fields-raw_body fs (put_field f r)

bytes_to_read-whole :
    (b rest : Bytes) → length b < 2 ^ 64 → bytes_to_read (b ++ rest) (length b) 0 ≡ length b
unfolding bytes_to_read
bytes_to_read-whole b rest small = omega (arith, length-append b rest)

-- The request with its body, of which nothing was there before.
abbrev pub with_body : Bytes → HttpRequest → HttpRequest
with_body b r = decode_form (record r { raw_body = b })

take_body-whole :
    (b rest : Bytes) (q : HttpParser)
    → q.request.raw_body ≡ []
    → length b < 2 ^ 64
    → take_body (length b) (b ++ rest) q
      ≡ (true, rest, record q { request = with_body b q.request; state = done })
unfolding take_body
take_body-whole b rest q empty small =
    rw
      (
        take_body,
        empty,
        bytes_to_read-whole b rest small,
        take_at (length b) b rest refl,
        drop_at (length b) b rest refl,
        ==_refl (length b),
      )
      refl

body_step-whole :
    (text b rest : Bytes) (q : HttpParser)
    → get_header (codes "Content-Length") q.request ≡ some text
    → stoul text ≡ some (length b)
    → q.request.raw_body ≡ []
    → length b < 2 ^ 64
    → body_step (b ++ rest) q
      ≡ (true, rest, record q { request = with_body b q.request; state = done })
unfolding body_step
body_step-whole text b rest q has size empty small =
    rw (body_step, has, size) (take_body-whole b rest q empty small)

append-full : (b rest : Bytes) → b ≢ [] → b ++ rest ≢ []
append-full [] rest full = λ e. full refl
append-full (x ∷ b) rest full = λ e. cc

module _ (can_open : Bytes → Bool) (time : ℕ → ℕ) where
  body_loop :
      (fuel : ℕ) (buffer text b rest : Bytes) (q : HttpParser)
      → q.state ≡ headers
      → is_multipart q.request ≡ false
      → get_header (codes "Content-Length") q.request ≡ some text
      → stoul text ≡ some (length b)
      → q.request.raw_body ≡ []
      → length b < 2 ^ 64
      → b ≢ []
      → parse_loop can_open time (suc (suc fuel)) buffer (crlf ++ (b ++ rest)) q
        ≡ some (returned complete rest (record q { request = with_body b q.request; state = done }))
  unfolding header_line_step header_line end_of_headers body_round parse_step
  body_loop fuel buffer text b rest q st plain has size empty small full =
      let w : HttpParser = record q { state = body } in
      let e : HttpParser = record q { request = with_body b q.request; state = done } in
      let step : header_line_step [] (b ++ rest) q ≡ next (b ++ rest) w =
        rw (header_line_step, header_line, end_of_headers, plain, has) refl in
      let taken : body_round (b ++ rest) w ≡ next rest e =
        rw (body_round, body_step-whole text b rest w has size empty small) refl in
      parse_loop-next can_open time (suc fuel) buffer (crlf ++ (b ++ rest)) (b ++ rest) q w
        (line-ne_nil [] (b ++ rest))
        (parse_step-header can_open time [] (b ++ rest) q st tt ∙ ap some step) refl
      ∙ parse_loop-done can_open time fuel buffer (b ++ rest) rest w e (append-full b rest full)
          (ap some taken) refl

  -- A printed request with a body that is not empty, whose length its Content-Length names: the body
  -- is read whole, a form is decoded, and the bytes behind it stay in the buffer.
  pub parse-print_request_body :
      (method path version : Bytes) (fs : List (Bytes × Bytes)) (text b rest : Bytes)
      (p : HttpParser)
      → p.state ≡ request_line
      → IsWord method
      → IsWord path
      → IsWord version
      → NoCr (print_line method path version)
      → All IsField fs
      → is_multipart (request_of method path version fs p.request) ≡ false
      → get_header (codes "Content-Length") (request_of method path version fs p.request)
        ≡ some text
      → stoul text ≡ some (length b)
      → p.request.raw_body ≡ []
      → length b < 2 ^ 64
      → b ≢ []
      → parse can_open time (print_request method path version fs (b ++ rest)) p
        ≡ some (
            returned complete rest (record p {
              request = with_body b (request_of method path version fs p.request);
              state = done;
            }))
  parse-print_request_body method path version fs text b rest p st hm hp hv one_line h plain has
        size empty small full =
      let whole = print_request method path version fs (b ++ rest) in
      let line_read = record p.request {
        method = method_of method;
        path = path;
        version = version;
      } in
      head_loop can_open time method path version fs (b ++ rest) p st hm hp hv one_line h
      ∙ body_loop (length whole - length fs - 2) whole text b rest
          (record p { request = request_of method path version fs p.request; state = headers }) refl
          plain has size (put_fields-raw_body fs line_read ∙ empty) small full

  -- A printed request whose Content-Length is 0, with nothing behind it, is not complete: `parse`
  -- takes all of its bytes and asks for more.
  pub parse-print_request_empty :
      (method path version : Bytes) (fs : List (Bytes × Bytes)) (text : Bytes) (p : HttpParser)
      → p.state ≡ request_line
      → IsWord method
      → IsWord path
      → IsWord version
      → NoCr (print_line method path version)
      → All IsField fs
      → is_multipart (request_of method path version fs p.request) ≡ false
      → get_header (codes "Content-Length") (request_of method path version fs p.request)
        ≡ some text
      → stoul text ≡ some 0
      → parse can_open time (print_request method path version fs []) p
        ≡ some (
            returned incomplete []
              (record p { request = request_of method path version fs p.request; state = body }))
  unfolding header_line_step header_line end_of_headers parse_loop
  parse-print_request_empty method path version fs text p st hm hp hv one_line h plain has size =
      let whole = print_request method path version fs [] in
      let r = request_of method path version fs p.request in
      let q : HttpParser = record p { request = r; state = headers } in
      let w : HttpParser = record p { request = r; state = body } in
      let step : header_line_step [] [] q ≡ next [] w =
        rw (header_line_step, header_line, end_of_headers, plain, has) refl in
      head_loop can_open time method path version fs [] p st hm hp hv one_line h
      ∙ parse_loop-next can_open time (suc (length whole - length fs - 2)) whole crlf [] q w
          (line-ne_nil [] []) (parse_step-header can_open time [] [] q refl tt ∙ ap some step) refl
