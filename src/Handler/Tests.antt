-- ===== src/Handler/Tests.antt =====
-- A server with one page, a pool of one connection, and a database in which every query finds a user.
use linux_cpp_web_server.Common.{ℕ, ◌≡◌, refl, Bool, true, false, Option, some, [], ◌∷◌, arith}
use linux_cpp_web_server.Common.Bytes.{Bytes, codes, bytes_eq}
use mathlib.Core.Path.{subst}
use linux_cpp_web_server.Common.Maps
use linux_cpp_web_server.Common.Maps.{bytes_key}
use linux_cpp_web_server.Tools.Text.{parse_form_field, generate_session_id}
use linux_cpp_web_server.Http.Request.{HttpRequest, get, post, find_header, is_websocket_upgrade}
use linux_cpp_web_server.Http.Request
use linux_cpp_web_server.Http.Response.{HttpResponse, with_status, set_header}
use linux_cpp_web_server.Http.Response
use linux_cpp_web_server.Sql.{
  SqlConnectionPool, pos, get_connection, release_connection, increment, decrement,
}
use linux_cpp_web_server.Sql.Leases.{Accounted, count}
use linux_cpp_web_server.Handler.{
  RequestContext, replied, handle_login, handle_logout, logged_in, logged_out, upgrade_response,
  is_post, with_fields, with_connection, with_pool, release_after, login, by_rows, open_session,
}
use linux_cpp_web_server.Handler.Static.{FileSystem, handle_static_file, file_response}
use linux_cpp_web_server.Handler.Cookies.{Carries, cookie_header}
use linux_cpp_web_server.Handler.Leases.{PoolAccounted}
use linux_cpp_web_server.Handler.Upgrade.{after_answer, respond-after_answer}
use linux_cpp_web_server.Http.Connection
use linux_cpp_web_server.Http.Connection.{
  HttpConnection, cannot_open, prepare_text, is_keep_alive, handle_write,
}
use linux_cpp_web_server.Http.Connection.Writing
use linux_cpp_web_server.Http.Connection.Writing.{wrote}
use linux_cpp_web_server.Common.Bytes.{to_string, digits_of, to_lower}
use linux_cpp_web_server.Tools
use linux_cpp_web_server.Handler.Static.{
  has_dot, index_path, reply, serve, serve_canonical, serve_file, serve_opened, serve_path,
  serve_regular, serve_undotted,
}
use linux_cpp_web_server.Common.Bytes.{find, find_if, is_empty, is_prefix, same_letters, take_while}
use linux_cpp_web_server.Tools.Text.{parse_cookie}
use linux_cpp_web_server.Handler.{session_of}

abbrev pub site : FileSystem
site = record {
  exists = λ p. some (bytes_eq p (codes "/www/a.html"));
  canonical = λ p. some p;
  is_regular_file = λ p. true;
  open_file = λ p. some (codes "hello");
  file_size = λ p. some 5;
}

abbrev pub one_connection : SqlConnectionPool
one_connection = record {
  max_conn = pos 1;
  cur_conn = pos 0;
  free_conn = pos 1;
  conn_list = 7 ∷ [];
}

abbrev pub context : RequestContext ℕ
context = record { db_pool = some one_connection; doc_root = codes "/www"; sessions = []; db = 0 }

abbrev pub page_request : HttpRequest
page_request = record Request.init { method = get; path = codes "/a" }

abbrev pub page : HttpResponse
page = file_response (codes "/www/a.html") (codes "hello") 5

pub page-handle_static_file : handle_static_file site page_request context ≡ replied page context
unfolding handle_static_file reply serve has_dot find_if index_path bytes_eq is_empty serve_undotted
    serve_path serve_file is_prefix serve_canonical file_response serve_regular serve_opened
page-handle_static_file = refl

abbrev pub query : ℕ → Bytes → ℕ → Bool × ℕ
query con sql db = (false, db)

abbrev pub one_row : ℕ → ℕ → Option ℕ × ℕ
one_row con db = (some 1, db)

abbrev pub zeros : ℕ → ℕ
zeros n = 0

abbrev pub login_request : HttpRequest
login_request = record Request.init {
  method = post;
  path = codes "/api/auth/login";
  raw_body = codes "username=ann&password=x";
}

abbrev pub inside : RequestContext ℕ
inside = record context { sessions = Maps.put (generate_session_id zeros) (codes "ann") [] }

abbrev pub carrying : HttpRequest
carrying = record Request.init {
  method = get;
  path = codes "/api/auth/validate_session";
  headers = (codes "Cookie", cookie_header (generate_session_id zeros) []) ∷ [];
}

pub carrying-Carries : Carries (generate_session_id zeros) carrying
unfolding Request.get_header same_letters
carrying-Carries = record { rest = []; ended = tt; cookie = refl }

pub login_request-handle_login :
    handle_login query one_row zeros login_request context
    ≡ replied (logged_in (generate_session_id zeros)) inside
unfolding handle_login with_fields is_post is_empty parse_form_field find take_while with_connection
    with_pool get_connection release_after logged_in login release_connection Maps.put set_header
    by_rows decrement increment open_session
login_request-handle_login = refl

-- The same session, under the path of the logout.
abbrev pub leaving : HttpRequest
leaving = record carrying { path = codes "/api/auth/logout" }

pub leaving-Carries : Carries (generate_session_id zeros) leaving
unfolding Request.get_header same_letters
leaving-Carries = record { rest = []; ended = tt; cookie = refl }

abbrev pub outside : RequestContext ℕ
outside = record inside { sessions = Maps.remove (generate_session_id zeros) inside.sessions }

pub leaving-handle_logout : handle_logout leaving inside ≡ replied logged_out outside
unfolding handle_logout is_empty session_of Request.get_header same_letters parse_cookie find
    take_while generate_session_id
leaving-handle_logout = refl

one_connection-Accounted : Accounted (7 ∷ []) one_connection []
unfolding count
one_connection-Accounted = record {
  free = refl;
  used = refl;
  total = refl;
  each = λ c. omega arith;
}

pub context-PoolAccounted : PoolAccounted (7 ∷ []) [] context
context-PoolAccounted pool e = subst (λ p. Accounted (7 ∷ []) p []) (cc e) one_connection-Accounted

abbrev upgrade_request : HttpRequest
upgrade_request = record Request.init {
  method = get;
  headers =
      (codes "Upgrade", codes "WebSocket")
      ∷ (codes "Sec-WebSocket-Key", codes "k")
      ∷ (codes "Sec-WebSocket-Version", codes "13")
      ∷ [];
}

-- A connection with that request, which gets an empty response.
abbrev upgrading : HttpConnection
upgrading = record Connection.init {
  parser = record Connection.init.parser { request = upgrade_request };
}

abbrev nothing_found : HttpRequest → ℕ → HttpResponse × ℕ
nothing_found req n = (Response.init, n)

abbrev answering : HttpConnection
answering = record (prepare_text Response.init (record upgrading { is_websocket = true })) {
  is_writing = true;
}

upgrading-respond :
    Connection.respond (λ f. cannot_open) nothing_found (λ f. true) (λ n. n) upgrading 0
    ≡ Connection.acted Tools.write answering 0
unfolding Connection.respond prepare_text Connection.prepare_response is_empty Connection.init
    Connection.text_of Response.init Connection.reset_for_keep_alive is_websocket_upgrade Maps.get
    bytes_eq same_letters take_while Connection.init_sending Request.holds Request.is_get
    Request.names_websocket to_lower
upgrading-respond = refl

answering-all_sent :
    (Writing.send_loop (wrote 4000 ∷ []) Writing.testing answering.sending).ended ≡ Writing.all_sent
unfolding prepare_text is_empty Connection.init Connection.text_of Response.init
    Connection.reset_for_keep_alive Response.status_line Response.header_lines
    Connection.length_line Connection.init_sending to_string digits_of Writing.send_loop
    Writing.need Writing.with_wire Writing.next_phase Writing.stop Writing.sub64 Writing.take_iov
    Writing.take_file Writing.file_need Writing.file_rest Writing.out_of_room Maps.get
answering-all_sent = refl

respond-after_answer_example :
    (d : HttpConnection) × ((handle_write (wrote 4000 ∷ []) answering).0
      ≡ some (
        after_answer
            (upgrade_response (λ k. k) upgrade_request).status_code
            (is_keep_alive upgrade_request),
        d,
      ))
respond-after_answer_example =
    respond-after_answer (λ f. cannot_open) nothing_found (λ f. true) (λ n. n) (λ k. k) upgrading
      answering 0 0 (wrote 4000 ∷ []) upgrading-respond answering-all_sent

upgrade_request-101 : (upgrade_response (λ k. k) upgrade_request).status_code ≡ 101
unfolding upgrade_response Request.is_get Maps.get bytes_eq Request.names_websocket same_letters
    take_while Response.with_header with_status
upgrade_request-101 = refl
