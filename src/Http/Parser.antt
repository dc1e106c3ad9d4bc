-- ===== src/Http/Parser.antt =====
-- src/http/HttpParser.cpp and include/http/HttpParser.h: the parser of a stream of bytes.
-- `processed_bytes` is carried as the bytes that are left. A return without `buffer.erase` leaves the
-- buffer as it came. `none` means that a loop's fuel ran out.
pub mod State
pub mod Lines
pub mod Multipart
pub mod Body
pub mod Pieces
pub mod Loop
pub mod Total
pub mod Returns
pub mod Words
pub mod RoundTrip
use linux_cpp_web_server.Common.{
  ℕ, zero, suc, ◌+◌, Bool, true, false, Option, none, some, List, [], ◌∷◌, if◌then◌else◌, length,
  take, drop,
}
use linux_cpp_web_server.Common.Bytes.{Bytes, crlf, find}
use State.{
  HttpParser, ParseState, request_line, headers, body, boundary_search, part_headers, part_data,
  done, ParseResult, complete, incomplete, error, is_done,
}
use Lines.{parse_request_line, header_line}
use Multipart.{Multi, finish, throw, handle_multipart}
use Body.{body_step}

-- What a round of the loop does: go on with what is left, return with the buffer cut, return with the
-- buffer as it came, or let an exception out.
pub data Step : Type 0 where
  next : Bytes → HttpParser → Step
  stop : ParseResult → Bytes → HttpParser → Step
  leave : ParseResult → HttpParser → Step
  raise : HttpParser → Step

-- How a call of `parse` ends: with a result, the buffer and the parser, or with an exception.
pub data Ended : Type 0 where
  returned : ParseResult → Bytes → HttpParser → Ended
  thrown : HttpParser → Ended

-- A line was taken, in one of the two states that read lines.
pub request_line_step : Bytes → Bytes → HttpParser → Step
request_line_step line rest p = elim (parse_request_line line p.request) [
  | none ↦ leave error p
  | some r ↦ next rest (record p { request = r; state = headers })
]

pub header_line_step : Bytes → Bytes → HttpParser → Step
header_line_step line rest p =
    let r = header_line line p in if r.0 then next rest r.1 else leave error r.1

pub line_step : (Bytes → Bytes → HttpParser → Step) → Bytes → HttpParser → Step
line_step act buf p = elim (find crlf buf) [
  | none ↦ leave incomplete p
  | some crlf_pos ↦ act (take crlf_pos buf) (drop (crlf_pos + 2) buf) p
]

pub body_round : Bytes → HttpParser → Step
body_round buf p = let r = body_step buf p in if r.0 then next r.1 r.2 else leave error r.2

pub multipart_round : Option Multi → Option Step
multipart_round none = none
multipart_round (some (throw p)) = some (raise p)
multipart_round (some (finish error chunk p)) = some (leave error p)
multipart_round (some (finish complete chunk p)) = some (next chunk p)
multipart_round (some (finish incomplete chunk p)) = some (stop incomplete chunk p)

module _ (can_open : Bytes → Bool) (time : ℕ → ℕ) where
  -- The switch on `m_state`.
  pub parse_step : ParseState → Bytes → HttpParser → Option Step
  parse_step request_line buf p = some (line_step request_line_step buf p)
  parse_step headers buf p = some (line_step header_line_step buf p)
  parse_step body buf p = some (body_round buf p)
  parse_step boundary_search buf p = multipart_round (handle_multipart can_open time buf p)
  parse_step part_headers buf p = multipart_round (handle_multipart can_open time buf p)
  parse_step part_data buf p = multipart_round (handle_multipart can_open time buf p)
  parse_step done buf p = some (stop complete buf p)

  -- The loop over a non-empty rest of `buffer`.
  pub parse_loop : ℕ → Bytes → Bytes → HttpParser → Option Ended
  parse_loop zero buffer rest p = none
  parse_loop (suc fuel) buffer [] p = some (returned incomplete [] p)
  parse_loop (suc fuel) buffer (c ∷ cs) p = elim (parse_step p.state (c ∷ cs) p) [
    | none ↦ none
    | some (raise q) ↦ some (thrown q)
    | some (leave result q) ↦ some (returned result buffer q)
    | some (stop result rest q) ↦ some (returned result rest q)
    | some (next rest q) ↦ elim (is_done q.state) [
      | true ↦ some (returned complete rest q)
      | false ↦ parse_loop fuel buffer rest q
    ]
  ]

  pub parse : Bytes → HttpParser → Option Ended
  parse buffer p = parse_loop (suc (length buffer)) buffer buffer p
