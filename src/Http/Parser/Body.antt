-- ===== src/Http/Parser/Body.antt =====
-- The case `BODY` of `parse`. `false` is `ParseResult::Error`.
use Prim.Native.Nat.{min}
use linux_cpp_web_server.Common.{
  ℕ, ◌+◌, ◌-◌, ◌%◌, ◌^◌, Bool, true, false, none, some, ◌++◌, ◌==◌, ltb, if◌then◌else◌, length,
  take, drop,
}
use linux_cpp_web_server.Common.Bytes.{Bytes, codes, stoul}
use linux_cpp_web_server.Http.Request.{HttpRequest, get_header, mentions}
use linux_cpp_web_server.Http.Form.{handle_form_urlencoded}
use linux_cpp_web_server.Http.Parser.State.{HttpParser, done}

-- `std::min(data.size() - processed_bytes, content_length - body_received)`, where the second
-- difference wraps.
unfoldable pub bytes_to_read : Bytes → ℕ → ℕ → ℕ
bytes_to_read buf content_length body_received =
    min (length buf) ((content_length + 2 ^ 64 - body_received) % 2 ^ 64)

unfoldable pub decode_form : HttpRequest → HttpRequest
decode_form r =
    if mentions (codes "application/x-www-form-urlencoded") (get_header (codes "Content-Type") r)
    then record r { form_fields = handle_form_urlencoded r.raw_body r.form_fields }
    else r

unfoldable pub take_body : ℕ → Bytes → HttpParser → Bool × Bytes × HttpParser
unfolding bytes_to_read
take_body content_length buf p =
    let n = bytes_to_read buf content_length (length p.request.raw_body) in
    let r = record p.request { raw_body = p.request.raw_body ++ take n buf } in
    if length r.raw_body == content_length
    then (true, drop n buf, record p { request = decode_form r; state = done })
    else if ltb content_length (length r.raw_body)
    then (false, drop n buf, record p { request = r })
    else (true, drop n buf, record p { request = r })

unfoldable pub body_step : Bytes → HttpParser → Bool × Bytes × HttpParser
body_step buf p = elim (get_header (codes "Content-Length") p.request) [
  | none ↦ (false, buf, p)
  | some text ↦ elim (stoul text) [
    | none ↦ (false, buf, p)
    | some content_length ↦ take_body content_length buf p
  ]
]
