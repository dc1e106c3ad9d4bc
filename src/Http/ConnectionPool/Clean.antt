-- ===== src/Http/ConnectionPool/Clean.antt =====
-- What a connection of the pool holds when it is handed out or taken back.
use linux_cpp_web_server.Common.{◌≡◌, refl, false, none, [], inl, inr, Option-cases}
use linux_cpp_web_server.Http.Request
use linux_cpp_web_server.Http.Parser.State.{HttpParser, request_line, close_if_open}
use linux_cpp_web_server.Http.Parser.State
use linux_cpp_web_server.Http.Connection.{
  HttpConnection, init_sending, reset_for_keep_alive, reinitialize,
}
use linux_cpp_web_server.Http.Connection

-- Nothing of an earlier request is in the connection: no byte in its buffers, no response under way, no
-- open file, and a parser at the start of a request.
pub record Clean (c : HttpConnection) : Type 0 where
  pub no_input : c.read_buffer ≡ []
  pub no_output : c.write_buffer ≡ []
  pub not_writing : c.is_writing ≡ false
  pub nothing_sent : c.sending ≡ init_sending
  pub no_websocket : c.is_websocket ≡ false
  pub at_start : c.parser.state ≡ request_line
  pub no_request : c.parser.request ≡ Request.init
  pub no_boundary : c.parser.boundary ≡ []
  pub no_part : c.parser.part_name ≡ []
  pub no_upload : c.parser.current_file ≡ none
  pub no_stream : c.parser.file_stream.opened ≡ none

close_if_open-none : (s : State.FileStream) → (close_if_open s).opened ≡ none
unfolding close_if_open
close_if_open-none s = elim (Option-cases s.opened) [
  | inl e ↦ rw (close_if_open, e) e
  | inr (f, e) ↦ rw (close_if_open, e) refl
]

pub reset-Clean : (c : HttpConnection) → Clean (reset_for_keep_alive c)
unfolding reset_for_keep_alive State.reset
reset-Clean c = record {
  no_input = refl;
  no_output = refl;
  not_writing = refl;
  nothing_sent = refl;
  no_websocket = refl;
  at_start = refl;
  no_request = refl;
  no_boundary = refl;
  no_part = refl;
  no_upload = refl;
  no_stream = close_if_open-none c.parser.file_stream;
}

pub init-Clean : Clean Connection.init
unfolding Connection.init
init-Clean = reset-Clean _

pub reinitialize-Clean : (c : HttpConnection) → Clean (reinitialize c)
unfolding reinitialize reset_for_keep_alive
reinitialize-Clean c = reset-Clean c
