-- ===== src/Server/LoggedIn.antt =====
-- A session from login to logout, through the routes of src/webserver/WebServer.cpp.
use linux_cpp_web_server.Common.{
  ℕ, ◌≡◌, ◌⊎◌, inl, inr, Option, none, refl, ap, sym, ◌∙◌, true, false, some, List, All,
}
use mathlib.Core.Path.{subst}
use linux_cpp_web_server.Common.Maps
use linux_cpp_web_server.Common.Maps.{bytes_key}
use linux_cpp_web_server.Common.Bytes.{Bytes, codes, bytes_eq}
use linux_cpp_web_server.Tools.Text.{generate_session_id, parse_form_field}
use linux_cpp_web_server.Http.Request.{HttpRequest, get, post}
use linux_cpp_web_server.Http.Response.{HttpResponse}
use linux_cpp_web_server.Handler.{
  RequestContext, replied, session_of, validated, logged_out, session_expired, handle_logout,
  handle_simple_json_get, handle_login, handle_validate_session, handle_websocket_upgrade, validate,
}
use linux_cpp_web_server.Handler.Replies.{Holds, Holds-replied}
use linux_cpp_web_server.Handler.Cookies.{Carries, session_of-Carries, generate_session_id-full}
use linux_cpp_web_server.Handler.Sessions.{
  HasSession, OnOk, Opened, handle_login-OnOk, validate-has, validate-none, handle_logout-gone,
}
use linux_cpp_web_server.Handler.Kept.{
  Keeps, handle_logout-Keeps, handle_register-Keeps, handle_login-Keeps,
}
use linux_cpp_web_server.Server.Routes.{
  Library, answer_request, login_path, logout_path, validate_path,
}
use linux_cpp_web_server.Server.Table.{Compiles, table, answer_request-table}
use linux_cpp_web_server.Server.Answers.{table-each, static-Holds}
use linux_cpp_web_server.Server.Turns.{Turn, answer_all, answer_all-kept}

-- A request that does not log the session out, and does not draw its id for another one.
pub record Harmless (session_id : Bytes) (t : Turn) : Type 0 where
  pub drawn : bytes_eq (generate_session_id t.picks) session_id ≡ false
  pub no_logout :
      bytes_eq t.request.path logout_path ≡ true
      → bytes_eq (session_of t.request) session_id ≡ false

-- A request that does not draw the id for another session.
abbrev pub NotDrawn : Bytes → Turn → Type 0
NotDrawn session_id t = bytes_eq (generate_session_id t.picks) session_id ≡ false

module _ {D : Type 0} (lib : Library D) (c : Compiles lib) where
  answer_request-Keeps :
      (session_id : Bytes) (user : Option Bytes) (t : Turn) (ctx : RequestContext D)
      → NotDrawn session_id t
      → (bytes_eq t.request.path logout_path ≡ true
          → (bytes_eq (session_of t.request) session_id ≡ false) ⊎ (user ≡ none))
      → Maps.get session_id ctx.sessions ≡ user
      → Holds (Keeps session_id user) (answer_request lib t.picks t.request ctx)
  unfolding handle_simple_json_get handle_validate_session handle_websocket_upgrade
  answer_request-Keeps id user t ctx drawn no_logout h =
      let req = t.request in
      subst (Holds (Keeps id user)) (sym (answer_request-table lib t.picks req ctx c)) (
        table-each lib t.picks (Holds (Keeps id user)) req.method req.path req ctx (λ _. h) (λ _. h)
          (λ out. handle_logout-Keeps id user req ctx h (no_logout out)) (λ _. h)
          (λ _. handle_register-Keeps id user lib.mysql_query lib.rows req ctx h)
          (λ _. handle_login-Keeps id user lib.mysql_query lib.rows t.picks drawn req ctx h)
          (static-Holds lib t.picks (Keeps id user) req ctx (λ r. h)) h)

  answer_request-login :
      (picks : ℕ → ℕ) (req : HttpRequest) (ctx ctx' : RequestContext D) (r : HttpResponse)
      → req.method ≡ post
      → req.path ≡ login_path
      → answer_request lib picks req ctx ≡ replied r ctx'
      → handle_login lib.mysql_query lib.rows picks req ctx ≡ replied r ctx'
  unfolding table bytes_eq
  answer_request-login picks req ctx ctx' r by_post at_login e =
      sym (answer_request-table lib picks req ctx c ∙ rw (by_post, at_login) refl) ∙ e

  answer_request-validate :
      (picks : ℕ → ℕ) (req : HttpRequest) (ctx : RequestContext D)
      → req.method ≡ get
      → req.path ≡ validate_path
      → answer_request lib picks req ctx ≡ handle_validate_session req ctx
  unfolding table bytes_eq
  answer_request-validate picks req ctx by_get at_path =
      answer_request-table lib picks req ctx c ∙ rw (by_get, at_path) refl

  -- A user whose login was answered by 200 stays logged in: after any requests of others that were
  -- all answered, of which none logs this session out and none draws its id, a request that carries the
  -- session id is told that the user of the login form is logged in. The patterns of files have to be
  -- regular expressions.
  pub login-answer_all-validate :
      (picks other_picks : ℕ → ℕ) (req again : HttpRequest) (ctx ctx' ctx'' : RequestContext D)
      (r : HttpResponse) (ts : List Turn)
      → req.method ≡ post
      → req.path ≡ login_path
      → answer_request lib picks req ctx ≡ replied r ctx'
      → r.status_code ≡ 200
      → All (Harmless (generate_session_id picks)) ts
      → answer_all lib ts ctx' ≡ some ctx''
      → again.method ≡ get
      → again.path ≡ validate_path
      → Carries (generate_session_id picks) again
      → answer_request lib other_picks again ctx''
        ≡ replied
            (validated
              (parse_form_field req.raw_body (codes "username"))
              (generate_session_id picks))
            ctx''
  unfolding handle_validate_session
  login-answer_all-validate picks other_picks req again ctx ctx' ctx'' r ts by_post at_login
        logged_in ok harmless served by_get at_validate carries =
      let id = generate_session_id picks in
      let user = parse_form_field req.raw_body (codes "username") in
      let opened : HasSession id user ctx'.sessions =
        Holds-replied (OnOk (Opened lib.mysql_query lib.rows picks req)) _ r ctx'
          (handle_login-OnOk lib.mysql_query lib.rows picks req ctx)
          (answer_request-login picks req ctx ctx' r by_post at_login logged_in) ok in
      let still : HasSession id user ctx''.sessions =
        answer_all-kept lib (λ x. HasSession id user x.sessions) (Harmless id)
          (λ t x one h.
            answer_request-Keeps id (some user) t x one.drawn (λ out. inl (one.no_logout out)) h)
          ts ctx' ctx'' harmless opened served in
      answer_request-validate other_picks again ctx'' by_get at_validate
      ∙ ap (λ x. replied x ctx'')
          (ap (λ s. validate s ctx'') (session_of-Carries picks again carries)
            ∙ validate-has lib.mysql_query lib.rows picks id user ctx''
                (generate_session_id-full picks) still)

  -- A logout by a request that carries a session id of `generate_session_id` clears the cookie, and ends
  -- the session: after any requests that were all answered, of which none draws the id again, a
  -- request that carries the id is told that its session has expired. The patterns of files have to be
  -- regular expressions.
  pub logout-answer_all-validate :
      (picks out_picks other_picks : ℕ → ℕ) (req again : HttpRequest)
      (ctx ctx' ctx'' : RequestContext D) (r : HttpResponse) (ts : List Turn)
      → req.method ≡ get
      → req.path ≡ logout_path
      → Carries (generate_session_id picks) req
      → answer_request lib out_picks req ctx ≡ replied r ctx'
      → All (NotDrawn (generate_session_id picks)) ts
      → answer_all lib ts ctx' ≡ some ctx''
      → again.method ≡ get
      → again.path ≡ validate_path
      → Carries (generate_session_id picks) again
      → (r ≡ logged_out)
        × (answer_request lib other_picks again ctx'' ≡ replied session_expired ctx'')
  unfolding handle_validate_session table bytes_eq
  logout-answer_all-validate picks out_picks other_picks req again ctx ctx' ctx'' r ts by_get
        at_logout carries out harmless served again_get at_validate same =
      let id = generate_session_id picks in
      let left : handle_logout req ctx ≡ replied r ctx' =
        sym (answer_request-table lib out_picks req ctx c ∙ rw (by_get, at_logout) refl) ∙ out in
      let (cleared, gone) =
        handle_logout-gone lib.mysql_query lib.rows picks req ctx ctx' r carries left in
      let still =
        answer_all-kept lib (λ x. Maps.get id x.sessions ≡ none) (NotDrawn id)
          (λ t x drawn h. answer_request-Keeps id none t x drawn (λ at. inr refl) h) ts ctx' ctx''
          harmless gone served in
      (
        cleared,
        answer_request-validate other_picks again ctx'' again_get at_validate
            ∙ ap (λ x. replied x ctx'')
                (ap (λ s. validate s ctx'') (session_of-Carries picks again same)
                  ∙ validate-none lib.mysql_query lib.rows picks id ctx''
                      (generate_session_id-full picks) still),
      )
