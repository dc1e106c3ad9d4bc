-- ===== src/Server/Routes.antt =====
-- The routes that `WebServer::init` of src/webserver/WebServer.cpp installs, with the handlers of
-- src/Handler.cpp. What the handlers call outside the sources is `Library`; `picks` are the draws for a
-- session id that the request in hand makes.
use linux_cpp_web_server.Common.{ℕ, Bool, Option, List, [], ◌∷◌}
use linux_cpp_web_server.Common.Bytes.{Bytes, codes}
use linux_cpp_web_server.Tools.Text.{generate_accept_value}
use linux_cpp_web_server.Http.Request.{HttpRequest, HttpMethod, get, post}
use linux_cpp_web_server.Http.Router.{RouteRule, add_route, route_request}
use linux_cpp_web_server.Handler.{
  RequestContext, Reply, replied, handle_simple_json_get, handle_register, handle_login,
  handle_validate_session, handle_logout, handle_websocket_upgrade,
}
use linux_cpp_web_server.Handler.Static.{FileSystem, handle_static_file}

pub record Library (D : Type 0) : Type 0 where
  pub files : FileSystem
  pub mysql_query : ℕ → Bytes → D → Bool × D
  pub rows : ℕ → D → Option ℕ × D
  pub sha1 : Bytes → Bytes
  pub base64 : Bytes → Bytes
  pub compiles : Bytes → Bool
  pub regex_match : Bytes → Bytes → Bool

abbrev pub test_path : Bytes
test_path = codes "/api/test"

abbrev pub register_path : Bytes
register_path = codes "/api/register"

abbrev pub login_path : Bytes
login_path = codes "/api/auth/login"

abbrev pub validate_path : Bytes
validate_path = codes "/api/auth/validate_session"

abbrev pub logout_path : Bytes
logout_path = codes "/api/auth/logout"

abbrev pub upgrade_path : Bytes
upgrade_path = codes "/api/upgrade"

-- The patterns of files: seven of names with an extension, the root, and names without a dot.
abbrev pub file_patterns : List Bytes
file_patterns =
    codes "/.*\\.(html|htm|css|js|json|txt|xml|csv)$"
    ∷ codes "/.*\\.(jpg|jpeg|png|gif|bmp|webp|svg|ico)$"
    ∷ codes "/.*\\.(pdf|doc|docx|xls|xlsx|ppt|pptx)$"
    ∷ codes "/.*\\.(mp3|wav|mp4|avi)$"
    ∷ codes "/.*\\.(zip|tar|gz|rar)$"
    ∷ codes "/.*\\.(ttf|woff|woff2)$"
    ∷ codes "^/$"
    ∷ codes "/[^.]*$"
    ∷ []

module _ {D : Type 0} (lib : Library D) where
  abbrev pub Routes : Type 0
  Routes = List (HttpMethod × List (RouteRule (RequestContext D) (Reply D)))

  unfoldable pub add :
      HttpMethod → Bytes → (HttpRequest → RequestContext D → Reply D) → Routes → Routes
  add = add_route lib.compiles lib.regex_match

  unfoldable pub api_routes : (ℕ → ℕ) → Routes
  api_routes picks =
      add get upgrade_path (handle_websocket_upgrade (generate_accept_value lib.sha1 lib.base64)) (
        add get logout_path handle_logout (
          add get validate_path handle_validate_session (
            add post login_path (handle_login lib.mysql_query lib.rows picks) (
              add post register_path (handle_register lib.mysql_query lib.rows)
                (add get test_path handle_simple_json_get [])))))

  unfoldable pub add_files : List Bytes → Routes → Routes
  add_files [] routes = routes
  add_files (pattern ∷ patterns) routes =
      add_files patterns (add get pattern (handle_static_file lib.files) routes)

  unfoldable pub installed : (ℕ → ℕ) → Routes
  installed picks = add_files file_patterns (api_routes picks)

  -- `m_router.route_request` on the routes of the server.
  unfoldable pub answer_request : (ℕ → ℕ) → HttpRequest → RequestContext D → Reply D
  answer_request picks req ctx =
      route_request lib.compiles lib.regex_match replied (installed picks) req ctx
