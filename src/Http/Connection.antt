-- ===== src/Http/Connection.antt =====
-- src/http/HttpConnection.cpp: one connection, its request and its response. The socket answers by
-- values, as in WebSocket/Conn. An open file is its content; `m_iov[0]` is the bytes it still covers,
-- and the second entry is never used. `escaped` is an exception.
pub mod Writing
pub mod Ready
pub mod Kept
pub mod Tests
use Prim.Native.Nat.{min}
use linux_cpp_web_server.Common.{
  ℕ, ◌+◌, ◌-◌, ◌%◌, ◌^◌, Bool, true, false, not, ◌||◌, Option, none, some, List, [], ◌∷◌, ◌++◌,
  ◌==◌, if◌then◌else◌, length, take, drop,
}
use linux_cpp_web_server.Common.Bytes.{Bytes, codes, crlf, is_empty, bytes_eq, to_string}
use linux_cpp_web_server.Common.Maps
use linux_cpp_web_server.Common.Maps.{bytes_key}
use linux_cpp_web_server.Tools.{Action, read, write, wait, close, upgrade}
use linux_cpp_web_server.WebSocket.Conn.{RecvEnd, eof, again, failed, received}
use linux_cpp_web_server.Http.Request.{HttpRequest, get_header, holds, is_websocket_upgrade}
use linux_cpp_web_server.Http.Response.{HttpResponse, status_line, header_lines, make_error}
use linux_cpp_web_server.Http.Parser.{Ended, returned, thrown, parse}
use linux_cpp_web_server.Http.Parser.State.{HttpParser, ParseResult, complete, incomplete, error}
use linux_cpp_web_server.Http.Parser.State
use Writing.{Sending, SendEnd, SocketWrite, all_sent, blocked, broken, spins, send_loop, testing}

pub record HttpConnection : Type 0 where
  pub parser : HttpParser
  pub is_writing : Bool
  pub read_buffer : Bytes
  pub write_buffer : Bytes
  pub sending : Sending
  pub is_websocket : Bool

-- What `open` and `fstat` answer for a path.
pub data FileOpen : Type 0 where
  cannot_open : FileOpen
  cannot_stat : Bytes → FileOpen
  opened : Bytes → FileOpen

unfoldable pub init_sending : Sending
init_sending = record {
  file = none;
  file_offset = 0;
  file_bytes_to_send = 0;
  iov = [];
  bytes_to_send = 0;
  bytes_have_sent = 0;
}

unfoldable pub reset_for_keep_alive : HttpConnection → HttpConnection
reset_for_keep_alive c = record {
  parser = State.reset c.parser;
  is_writing = false;
  read_buffer = [];
  write_buffer = [];
  sending = init_sending;
  is_websocket = false;
}

unfoldable pub init : HttpConnection
init = reset_for_keep_alive (record {
  parser = State.init (codes "/tmp");
  is_writing = false;
  read_buffer = [];
  write_buffer = [];
  sending = init_sending;
  is_websocket = false;
})

-- The descriptor, the address and the router of the new connection are not state of this model.
unfoldable pub reinitialize : HttpConnection → HttpConnection
reinitialize c = record (reset_for_keep_alive c) { read_buffer = []; write_buffer = [] }

-- `Content-Length`, where the response does not name one.
unfoldable pub length_line : Bool → ℕ → HttpResponse → Bytes
length_line needed size r =
    if needed
    then elim (Maps.get (codes "Content-Length") r.headers) [
      | none ↦ codes "Content-Length: " ++ to_string size ++ crlf
      | some v ↦ []
    ]
    else []

unfoldable pub text_of : HttpResponse → Bytes
text_of r =
    status_line r
    ++ header_lines r.headers
    ++ length_line (not (is_empty r.body)) (length r.body) r
    ++ crlf
    ++ r.body

pub file_header : Bytes → HttpResponse → Bytes
file_header file r =
    status_line r ++ header_lines r.headers ++ length_line true (length file) r ++ crlf

unfoldable pub prepare_text : HttpResponse → HttpConnection → HttpConnection
prepare_text r c = record c {
  write_buffer = text_of r;
  sending = record c.sending {
    iov = text_of r;
    bytes_to_send = length (text_of r);
    bytes_have_sent = 0;
  };
}

unfoldable pub prepare_file : Bytes → HttpResponse → HttpConnection → HttpConnection
prepare_file file r c = record c {
  write_buffer = file_header file r;
  sending = record {
    file = some file;
    file_offset = 0;
    file_bytes_to_send = length file;
    iov = file_header file r;
    bytes_to_send = length (file_header file r) + length file;
    bytes_have_sent = 0;
  };
}

unfoldable pub without_file : HttpConnection → HttpConnection
without_file c = record c { sending = record c.sending { file = none } }

-- `Connection: keep-alive` in one of two spellings.
pub is_keep_alive : HttpRequest → Bool
is_keep_alive r =
    holds (λ v. bytes_eq v (codes "keep-alive") || bytes_eq v (codes "Keep-Alive"))
      (get_header (codes "Connection") r)

unfoldable pub after_sending : HttpConnection → Action × HttpConnection
after_sending c =
    if is_keep_alive c.parser.request
    then (wait, reset_for_keep_alive c)
    else if c.is_websocket
    then (upgrade, record c { is_websocket = false })
    else (close, c)

unfoldable pub sent : SendEnd → HttpConnection → Option (Action × HttpConnection)
sent all_sent c = some (after_sending (without_file c))
sent blocked c = some (write, c)
sent broken c = some (close, without_file c)
sent spins c = none

-- The answer, the connection and the bytes put on the wire; `none` is a loop without end.
unfoldable pub handle_write :
    List SocketWrite → HttpConnection → Option (Action × HttpConnection) × Bytes
handle_write ws c =
    if c.is_writing
    then (let r = send_loop ws testing c.sending in
        (sent r.ended (record c { sending = r.left }), r.wire))
    else (some (read, c), [])

-- How `handle_read` ends.
pub data ReadEnd {ℓ} (W : Type ℓ) : Type ℓ where
  acted : Action → HttpConnection → W → ReadEnd W
  escaped : HttpConnection → W → ReadEnd W

module _ {W : Type 0} (files : Bytes → FileOpen)
    (route_request : HttpRequest → W → HttpResponse × W) (can_open : Bytes → Bool)
    (time : ℕ → ℕ) where
  -- The two error pages name no file, so the inner call of `prepare_response` is of a text.
  unfoldable pub prepare_response : HttpResponse → HttpConnection → HttpConnection
  prepare_response r c =
      if is_empty r.file_path then prepare_text r c else elim (files r.file_path) [
        | cannot_open ↦ prepare_text (make_error 404) (without_file c)
        | cannot_stat b ↦ prepare_text (make_error 500) (without_file c)
        | opened file ↦ prepare_file file r c
      ]

  unfoldable pub respond : HttpConnection → W → ReadEnd W
  respond c w =
      let r = route_request c.parser.request w in
      acted write
        (record (prepare_response r.0
          (record c { is_websocket = is_websocket_upgrade c.parser.request })) {
            is_writing = true;
          })
        r.1

  unfoldable pub after_parse : Ended → HttpConnection → W → ReadEnd W
  after_parse (thrown p) c w = escaped (record c { parser = p }) w
  after_parse (returned complete buffer p) c w =
      respond (record c { parser = p; read_buffer = buffer }) w
  after_parse (returned incomplete buffer p) c w =
      acted read (record c { parser = p; read_buffer = buffer }) w
  after_parse (returned error buffer p) c w =
      acted write
        (record (prepare_response (make_error 400)
          (record c { parser = p; read_buffer = buffer })) { is_writing = true })
        w

  unfoldable pub parse_and_answer : HttpConnection → W → Option (ReadEnd W)
  parse_and_answer c w = elim (parse can_open time c.read_buffer c.parser) [
    | none ↦ none
    | some e ↦ some (after_parse e c w)
  ]

  unfoldable pub handle_recv_end : RecvEnd → HttpConnection → W → Option (ReadEnd W)
  handle_recv_end eof c w = some (acted close c w)
  handle_recv_end failed c w = some (acted close c w)
  handle_recv_end again c w =
      if is_empty c.read_buffer then some (acted read c w) else parse_and_answer c w

  unfoldable pub handle_read : List Bytes → RecvEnd → HttpConnection → W → Option (ReadEnd W)
  handle_read chunks last c w =
      handle_recv_end last (record c { read_buffer = received c.read_buffer chunks }) w
