-- ===== src/Handler.antt =====
-- src/Handler.cpp: the handlers of requests. The context holds the pool of connections, the document
-- root, the sessions and the database `D`. The MySQL library is a parameter: `mysql_query` says whether
-- it failed, `rows` what `mysql_store_result` and `mysql_num_rows` make of its result. A connection of
-- the pool is not NULL. Log lines are left out.
pub mod Static
pub mod Replies
pub mod Sessions
pub mod Cookies
pub mod Kept
pub mod Leases
pub mod Inside
pub mod Upgrade
pub mod Total
pub mod Tests
use linux_cpp_web_server.Common.{
  ℕ, Bool, true, false, not, ◌||◌, Option, none, some, List, [], ◌∷◌, ◌++◌, ◌==◌, if◌then◌else◌,
  take, length,
}
use linux_cpp_web_server.Common.Bytes.{Bytes, codes, utf8, is_empty, bytes_eq, take_while}
use linux_cpp_web_server.Common.Maps
use linux_cpp_web_server.Common.Maps.{bytes_key}
use linux_cpp_web_server.Tools.Text.{parse_form_field, parse_cookie, generate_session_id}
use linux_cpp_web_server.Http.Request.{
  HttpRequest, HttpMethod, get, post, head, unknown, get_header, is_get, names_websocket,
}
use linux_cpp_web_server.Http.Response.{
  HttpResponse, with_status, with_header, with_body, set_header,
}
use linux_cpp_web_server.Http.Response
use linux_cpp_web_server.Sql.{SqlConnectionPool, get_connection, release_connection}

pub record RequestContext (D : Type 0) : Type 0 where
  pub db_pool : Option SqlConnectionPool
  pub doc_root : Bytes
  pub sessions : List (Bytes × Bytes)
  pub db : D

-- How a handler ends: with a response, waiting for a connection, or with an exception.
pub data Reply (D : Type 0) : Type 0 where
  replied : HttpResponse → RequestContext D → Reply D
  blocked : Reply D
  escaped : Reply D

-- A response with its fields set, and a JSON body.
unfoldable pub json_response : ℕ → Bytes → Bytes → HttpResponse
json_response code text body =
    record (set_header (codes "Content-Type") (codes "application/json")
      (with_status code text Response.init)) { body = body }

-- The same by the fluent interface, which sets `Content-Length`.
unfoldable pub json_reply : ℕ → Bytes → Bytes → HttpResponse
json_reply code text body = with_body body (
    with_header (codes "Content-Type") (codes "application/json")
      (with_status code text Response.init))

unfoldable pub is_post : HttpMethod → Bool
is_post post = true
is_post _ = false

abbrev pub method_not_allowed : HttpResponse
method_not_allowed =
    json_response 405 (codes "Method Not Allowed")
      (utf8 "{\"status\": \"error\", \"msg\": \"只支持POST方法\"}")

abbrev pub missing_fields : HttpResponse
missing_fields =
    json_response 400 (codes "Bad Request")
      (utf8 "{\"status\": \"error\", \"msg\": \"用户名和密码不能为空\"}")

abbrev pub no_database : HttpResponse
no_database =
    json_response 500 (codes "Internal Server Error")
      (utf8 "{\"status\": \"error\", \"msg\": \"数据库连接失败\"}")

-- `c_str()` where it is printed with `%s`: the text up to a NUL byte.
unfoldable pub c_str : Bytes → Bytes
c_str s = take_while (λ c. not (c == 0)) s

-- `snprintf(sql, 512, ...)`
unfoldable pub sql_buffer : Bytes → Bytes
sql_buffer text = take 511 text

abbrev quote : Bytes
quote = codes "'"

unfoldable pub insert_sql : Bytes → Bytes → Bytes → Bytes
insert_sql username password email = sql_buffer (
    codes "INSERT INTO users(username, password, email) VALUES('"
    ++ c_str username
    ++ codes "', '"
    ++ c_str password
    ++ codes "', '"
    ++ c_str email
    ++ codes "')")

unfoldable pub select_sql : Bytes → Bytes → Bytes
select_sql username password = sql_buffer (
    codes "SELECT id FROM users WHERE username='"
    ++ c_str username
    ++ codes "' AND password='"
    ++ c_str password
    ++ quote)

-- The cookie of the request, or the empty text.
unfoldable pub session_of : HttpRequest → Bytes
session_of req = elim (get_header (codes "Cookie") req) [
  | none ↦ parse_cookie [] (codes "sessionId")
  | some cookie ↦ parse_cookie cookie (codes "sessionId")
]

unfoldable pub validated : Bytes → Bytes → HttpResponse
validated username session_id = json_reply 200 (codes "OK") (
    utf8 "{\"status\":\"ok\",\"msg\":\"已登录\",\"username\":\""
    ++ username
    ++ codes "\",\"sessionId\":\""
    ++ session_id
    ++ codes "\"}")

abbrev pub not_logged_in : HttpResponse
not_logged_in =
    json_reply 401 (codes "Unauthorized") (utf8 "{\"status\":\"error\",\"msg\":\"未登录\"}")

abbrev pub session_expired : HttpResponse
session_expired =
    json_reply 401 (codes "Unauthorized") (utf8 "{\"status\":\"error\",\"msg\":\"会话已失效\"}")

abbrev pub invalid_session : HttpResponse
invalid_session =
    json_reply 400 (codes "Bad Request") (utf8 "{\"status\":\"error\",\"msg\":\"无效的会话\"}")

abbrev pub logged_out : HttpResponse
logged_out = with_body (utf8 "{\"status\":\"ok\",\"msg\":\"登出成功\"}") (
    with_header (codes "Set-Cookie")
      (codes "sessionId=; Path=/; HttpOnly; Max-Age=0; SameSite=Lax;")
      (with_header (codes "Content-Type") (codes "application/json")
        (with_status 200 (codes "OK") Response.init)))

-- The three headers are looked up by their exact spelling, in a copy of the map.
unfoldable pub upgrade_response : (Bytes → Bytes) → HttpRequest → HttpResponse
upgrade_response generate_accept_value req =
    if is_get req.method
    then elim (Maps.get (codes "Upgrade") req.headers) [
      | none ↦ with_status 400 (codes "Bad Request") Response.init
      | some up ↦
          (if names_websocket up
            then elim (Maps.get (codes "Sec-WebSocket-Key") req.headers) [
              | none ↦ with_status 400 (codes "Bad Request") Response.init
              | some key ↦ elim (Maps.get (codes "Sec-WebSocket-Version") req.headers) [
                | none ↦ with_status 400 (codes "Unsupported WebSocket Version") Response.init
                | some version ↦
                    (if bytes_eq version (codes "13")
                      then with_header (codes "Sec-WebSocket-Accept") (generate_accept_value key) (
                          with_header (codes "Connection") (codes "Upgrade") (
                            with_header (codes "Upgrade") (codes "websocket")
                              (with_status 101 (codes "Switching Protocols") Response.init)))
                      else with_status 400 (codes "Unsupported WebSocket Version") Response.init)
              ]
            ]
            else with_status 400 (codes "Bad Request") Response.init)
    ]
    else with_status 405 (codes "Method Not Allowed") Response.init

abbrev pub register_failed : HttpResponse
register_failed =
    json_response 500 (codes "Internal Server Error")
      (utf8 "{\"status\": \"error\", \"msg\": \"注册失败\"}")

abbrev pub registered : HttpResponse
registered = json_response 200 (codes "OK") (utf8 "{\"status\": \"ok\", \"msg\": \"注册成功\"}")

abbrev pub login_failed : HttpResponse
login_failed =
    json_response 500 (codes "Internal Server Error")
      (utf8 "{\"status\": \"error\", \"msg\": \"登录失败\"}")

abbrev pub wrong_password : HttpResponse
wrong_password =
    json_response 401 (codes "Unauthorized") (utf8 "{\"status\": \"error\", \"msg\": \"用户名或密码错误\"}")

unfoldable pub logged_in : Bytes → HttpResponse
logged_in session_id =
    set_header (codes "Set-Cookie")
      (codes "sessionId=" ++ session_id ++ codes "; Path=/; HttpOnly; SameSite=Lax")
      (json_response 200 (codes "OK")
        (utf8 "{\"status\":\"ok\",\"msg\":\"登录成功\",\"sessionId\":\"" ++ session_id ++ codes "\"}"))

module _ {D : Type 0} where
  -- The end of the handler: the destructor of `connectionRAII`.
  unfoldable pub release_after : ℕ → SqlConnectionPool → HttpResponse × RequestContext D → Reply D
  release_after con pool (r, ctx) =
      replied r (record ctx { db_pool = some (release_connection (some con) pool).1 })

  unfoldable pub with_pool : SqlConnectionPool → (ℕ → HttpResponse × RequestContext D) → Reply D
  with_pool pool act = elim (get_connection pool) [
    | none ↦ blocked
    | some (con, lent) ↦ release_after con lent (act con)
  ]

  -- `connectionRAII mysqlcon(&mysql, ctx.db_pool)` and what is done with the connection.
  unfoldable pub with_connection :
      RequestContext D → (ℕ → HttpResponse × RequestContext D) → Reply D
  with_connection ctx act = elim ctx.db_pool [
    | none ↦ replied no_database ctx
    | some pool ↦ with_pool pool act
  ]

  -- The tests that registration and login begin with.
  unfoldable pub with_fields : HttpRequest → RequestContext D → Reply D → Reply D
  with_fields req ctx rest =
      if is_post req.method
      then (if is_empty (parse_form_field req.raw_body (codes "username"))
            || is_empty (parse_form_field req.raw_body (codes "password"))
          then replied missing_fields ctx
          else rest)
      else replied method_not_allowed ctx

  unfoldable pub validate : Bytes → RequestContext D → HttpResponse
  validate session_id ctx =
      if is_empty session_id then not_logged_in else elim (Maps.get session_id ctx.sessions) [
        | none ↦ session_expired
        | some username ↦ validated username session_id
      ]

  unfoldable pub handle_validate_session : HttpRequest → RequestContext D → Reply D
  handle_validate_session req ctx = replied (validate (session_of req) ctx) ctx

  unfoldable pub handle_logout : HttpRequest → RequestContext D → Reply D
  handle_logout req ctx =
      if is_empty (session_of req)
      then replied invalid_session ctx
      else replied logged_out (record ctx { sessions = Maps.remove (session_of req) ctx.sessions })

  unfoldable pub handle_simple_json_get : HttpRequest → RequestContext D → Reply D
  handle_simple_json_get req ctx =
      replied
        (json_reply 200 (codes "OK")
          (codes "{\"message\": \"Hello from HttpConnection\", \"status\": \"success\"}"))
        ctx

  unfoldable pub handle_websocket_upgrade :
      (Bytes → Bytes) → HttpRequest → RequestContext D → Reply D
  handle_websocket_upgrade generate_accept_value req ctx =
      replied (upgrade_response generate_accept_value req) ctx

  unfoldable pub open_session : (ℕ → ℕ) → Bytes → RequestContext D → HttpResponse × RequestContext D
  open_session picks username ctx = (
    logged_in (generate_session_id picks),
    record ctx { sessions = Maps.put (generate_session_id picks) username ctx.sessions },
  )

  unfoldable pub by_rows :
      (ℕ → ℕ) → Bytes → Option ℕ → RequestContext D → HttpResponse × RequestContext D
  by_rows picks username none ctx = (login_failed, ctx)
  by_rows picks username (some n) ctx =
      if n == 0 then (wrong_password, ctx) else open_session picks username ctx

module _ {D : Type 0} (mysql_query : ℕ → Bytes → D → Bool × D) (rows : ℕ → D → Option ℕ × D) where
  unfoldable pub register : HttpRequest → RequestContext D → ℕ → HttpResponse × RequestContext D
  register req ctx con =
      let q =
        mysql_query con
          (insert_sql (parse_form_field req.raw_body (codes "username"))
            (parse_form_field req.raw_body (codes "password"))
            (parse_form_field req.raw_body (codes "email")))
          ctx.db in
      ((if q.0 then register_failed else registered), record ctx { db = q.1 })

  unfoldable pub handle_register : HttpRequest → RequestContext D → Reply D
  handle_register req ctx = with_fields req ctx (with_connection ctx (register req ctx))

  unfoldable pub login :
      (ℕ → ℕ) → HttpRequest → RequestContext D → ℕ → HttpResponse × RequestContext D
  login picks req ctx con =
      let username = parse_form_field req.raw_body (codes "username") in
      let q =
        mysql_query con (select_sql username (parse_form_field req.raw_body (codes "password")))
          ctx.db in
      let result = rows con q.1 in
      if q.0
      then (login_failed, record ctx { db = q.1 })
      else by_rows picks username result.0 (record ctx { db = result.1 })

  unfoldable pub handle_login : (ℕ → ℕ) → HttpRequest → RequestContext D → Reply D
  handle_login picks req ctx = with_fields req ctx (with_connection ctx (login picks req ctx))
