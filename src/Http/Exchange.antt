-- ===== src/Http/Exchange.antt =====
-- One request and its response, through the parts of src/http: a connection of the pool reads the
-- request, parses it, asks the router and writes what it answers.
use linux_cpp_web_server.Common.{
  ℕ, ◌^◌, ◌<◌, ◌≤◌, ◌≡◌, ◌≢◌, Bool, true, false, none, some, List, [], ◌++◌, length, All,
}
use linux_cpp_web_server.Common.Bytes.{Bytes, codes, stoul}
use linux_cpp_web_server.Common.Bytes.Search.{NoCr}
use linux_cpp_web_server.Http.Request.{HttpRequest, get_header, is_multipart, is_websocket_upgrade}
use linux_cpp_web_server.Http.Request
use linux_cpp_web_server.Http.Response.{HttpResponse}
use linux_cpp_web_server.Http.Parser.State.{HttpParser}
use linux_cpp_web_server.Http.Parser.Words.{IsWord, print_line, IsField}
use linux_cpp_web_server.Http.Parser.RoundTrip.{request_of}
use linux_cpp_web_server.Http.Connection.{HttpConnection, FileOpen, prepare_text, handle_write}
use linux_cpp_web_server.Http.Connection.Writing.{SocketWrite, all_sent, testing, send_loop}
use linux_cpp_web_server.Http.Connection.Ready.{remaining}
use linux_cpp_web_server.Http.Connection.Kept.{Takes}
use linux_cpp_web_server.Http.ConnectionPool.Clean.{Clean}

-- A request with a body, as it is printed, and what the parser has to read of it.
pub record Printed (method path version : Bytes) (fs : List (Bytes × Bytes)) (text b : Bytes)
    : Type 0 where
  pub method_word : IsWord method
  pub path_word : IsWord path
  pub version_word : IsWord version
  pub one_line : NoCr (print_line method path version)
  pub fields : All IsField fs
  pub plain : is_multipart (request_of method path version fs Request.init) ≡ false
  pub has_length :
      get_header (codes "Content-Length") (request_of method path version fs Request.init)
      ≡ some text
  pub length_of : stoul text ≡ some (length b)
  pub small : length b < 2 ^ 64
  pub full : b ≢ []

-- A connection whose response `text` is under way, and what the socket answers: `handle_write` does not
-- go round without offering it bytes, and what is on the wire begins the text; it is the whole text when the loop is
-- through, and it is through when the socket takes something each time, as often as the text has bytes.
pub record Answers (text : Bytes) (c : HttpConnection) (ws : List SocketWrite) : Type 0 where
  pub part : (handle_write ws c).1 ++ remaining ((send_loop ws testing c.sending).left) ≡ text
  pub whole : (send_loop ws testing c.sending).ended ≡ all_sent → (handle_write ws c).1 ≡ text
  pub ends : (handle_write ws c).0 ≢ none
  pub finishes :
      All Takes ws
      → length text ≤ length ws
      → ((send_loop ws testing c.sending).ended ≡ all_sent) × ((handle_write ws c).1 ≡ text)

module _ {W : Type 0} (files : Bytes → FileOpen)
    (route_request : HttpRequest → W → HttpResponse × W) (can_open : Bytes → Bool)
    (time : ℕ → ℕ) where
  -- What `handle_read` leaves when a response without a file has been prepared.
  prepared : HttpResponse → HttpParser → Bytes → HttpConnection → HttpConnection
  prepared r p rest c =
      record (prepare_text r (record c {
        read_buffer = rest;
        parser = p;
        is_websocket = is_websocket_upgrade p.request;
      })) { is_writing = true }
