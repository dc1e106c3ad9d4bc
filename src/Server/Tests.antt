-- ===== src/Server/Tests.antt =====
-- A server with one page and one database connection.
use linux_cpp_web_server.Common.{
  ℕ, ◌≡◌, ◌⊎◌, refl, ◌∙◌, true, not, ◌&&◌, some, List, [], ◌∷◌, arith, All,
}
use linux_cpp_web_server.Common.Bytes.{codes, bytes_eq, find_if}
use linux_cpp_web_server.Tools.Text.{generate_session_id, parse_form_field}
use linux_cpp_web_server.Http.Request.{HttpRequest, get}
use linux_cpp_web_server.Http.Request
use linux_cpp_web_server.Http.Response.{HttpResponse, set_header, with_status}
use linux_cpp_web_server.Http.Response
use linux_cpp_web_server.Sql.Leases.{count}
use linux_cpp_web_server.Handler.{
  RequestContext, replied, validated, logged_in, logged_out, session_expired, json_response,
  handle_simple_json_get,
}
use linux_cpp_web_server.Handler.Static.{
  has_dot, handle_static_file, reply, file_response, file_headers,
}
use linux_cpp_web_server.Handler.Inside.{Inside}
use linux_cpp_web_server.Handler.Leases.{PoolAccounted}
use linux_cpp_web_server.Handler.Tests.{
  site, context, page_request, page, page-handle_static_file, query, one_row, zeros, login_request,
  login_request-handle_login, inside, carrying, carrying-Carries, context-PoolAccounted, leaving,
  leaving-Carries, leaving-handle_logout, outside,
}
use linux_cpp_web_server.Server.Routes.{Library, answer_request}
use linux_cpp_web_server.Server.Table.{Compiles, table, names_file, answer_request-table}
use linux_cpp_web_server.Server.Answers.{is_api, answer_request-Inside}
use linux_cpp_web_server.Server.Turns.{Turn, answer_all, Threw, answer_all-PoolAccounted}
use linux_cpp_web_server.Server.LoggedIn.{
  Harmless, login-answer_all-validate, logout-answer_all-validate,
}

-- Only the pattern of names without a dot matches.
abbrev library : Library ℕ
library = record {
  files = site;
  mysql_query = query;
  rows = one_row;
  sha1 = λ text. text;
  base64 = λ text. text;
  compiles = λ pattern. true;
  regex_match = λ path pattern. bytes_eq pattern (codes "/[^.]*$") && not (has_dot path);
}

library-Compiles : Compiles library
library-Compiles = (refl, (refl, (refl, (refl, (refl, (refl, (refl, (refl, tt))))))))

answer_request-table_example :
    answer_request library zeros page_request context
    ≡ table library zeros page_request.method page_request.path page_request context
answer_request-table_example =
    answer_request-table library zeros page_request context library-Compiles

page-answer_request : answer_request library zeros page_request context ≡ replied page context
unfolding table bytes_eq names_file has_dot handle_static_file find_if reply
page-answer_request =
    answer_request-table library zeros page_request context library-Compiles
    ∙ page-handle_static_file

answer_request-Inside_example : Inside site (codes "/www") page
unfolding is_api bytes_eq file_response file_headers set_header Response.init
answer_request-Inside_example =
    answer_request-Inside library zeros page_request context context page library-Compiles refl
      page-answer_request refl

login-answer_request :
    answer_request library zeros login_request context
    ≡ replied (logged_in (generate_session_id zeros)) inside
unfolding table bytes_eq
login-answer_request =
    answer_request-table library zeros login_request context library-Compiles
    ∙ login_request-handle_login

answer_all-PoolAccounted_example :
    ((ctx' : RequestContext ℕ) × (answer_all library
          (record { picks = zeros; request = login_request }
            ∷ record { picks = zeros; request = page_request }
            ∷ [])
          context
        ≡ some ctx')
      × PoolAccounted (7 ∷ []) [] ctx')
    ⊎ Threw library
        (record { picks = zeros; request = login_request }
          ∷ record { picks = zeros; request = page_request }
          ∷ [])
        context
unfolding count
answer_all-PoolAccounted_example =
    answer_all-PoolAccounted library (7 ∷ []) [] 7 (omega arith)
      (record { picks = zeros; request = login_request }
        ∷ record { picks = zeros; request = page_request }
        ∷ [])
      context library-Compiles context-PoolAccounted

abbrev ones : ℕ → ℕ
ones n = 1

abbrev test_request : HttpRequest
test_request = record Request.init { method = get; path = codes "/api/test" }

abbrev one_test : List Turn
one_test = record { picks = ones; request = test_request } ∷ []

one_test-Harmless : All (Harmless (generate_session_id zeros)) one_test
unfolding generate_session_id bytes_eq
one_test-Harmless = (record { drawn = refl; no_logout = λ e. absurd (cc e) }, tt)

one_test-answer_all : (ctx : RequestContext ℕ) → answer_all library one_test ctx ≡ some ctx
unfolding answer_all table bytes_eq handle_simple_json_get
one_test-answer_all ctx =
    rw (answer_all, answer_request-table library ones test_request ctx library-Compiles) refl

login-answer_all-validate_example :
    answer_request library zeros carrying inside
    ≡ replied
        (validated
          (parse_form_field login_request.raw_body (codes "username"))
          (generate_session_id zeros))
        inside
unfolding logged_in json_response with_status set_header
login-answer_all-validate_example =
    login-answer_all-validate library library-Compiles zeros zeros login_request carrying context
      inside inside (logged_in (generate_session_id zeros)) one_test refl refl login-answer_request
      refl one_test-Harmless (one_test-answer_all inside) refl refl carrying-Carries

leaving-answer_request : answer_request library ones leaving inside ≡ replied logged_out outside
unfolding table bytes_eq
leaving-answer_request =
    answer_request-table library ones leaving inside library-Compiles ∙ leaving-handle_logout

logout-answer_all-validate_example :
    (logged_out ≡ logged_out)
    × (answer_request library zeros carrying outside ≡ replied session_expired outside)
unfolding generate_session_id bytes_eq
logout-answer_all-validate_example =
    logout-answer_all-validate library library-Compiles zeros ones zeros leaving carrying inside
      outside outside logged_out one_test refl refl leaving-Carries leaving-answer_request
      (refl, tt) (one_test-answer_all outside) refl refl carrying-Carries
