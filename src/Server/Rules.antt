-- ===== src/Server/Rules.antt =====
-- The rules of each method that the routes of src/webserver/WebServer.cpp come to.
use linux_cpp_web_server.Common.{
  ℕ, ◌≡◌, refl, sym, ◌∙◌, false, List, [], ◌∷◌, ◌++◌, append-nil, append_assoc, if◌then◌else◌, map,
  inl, inr, Bool-cases,
}
use linux_cpp_web_server.Common.Bytes.{Bytes, bytes_eq, find_if}
use linux_cpp_web_server.Common.Maps
use linux_cpp_web_server.Tools.Text.{generate_accept_value}
use linux_cpp_web_server.Http.Request.{HttpRequest, HttpMethod, get, post}
use linux_cpp_web_server.Http.Router.{
  RouteRule, make_rule, rule_matches, first_match, answer_of, rules_of, is_regex_pattern, one_of,
  method_beq, method_beq_refl, rules_of-add_route,
}
use linux_cpp_web_server.Handler.{
  RequestContext, Reply, replied, handle_simple_json_get, handle_register, handle_login,
  handle_validate_session, handle_logout, handle_websocket_upgrade,
}
use linux_cpp_web_server.Handler.Static.{handle_static_file}
use linux_cpp_web_server.Server.Routes.{
  Library, Routes, add, api_routes, add_files, installed, test_path, register_path, login_path,
  validate_path, logout_path, upgrade_path, file_patterns,
}

module _ {D : Type 0} (lib : Library D) where
  unfoldable pub rule :
      Bytes → (HttpRequest → RequestContext D → Reply D) → RouteRule (RequestContext D) (Reply D)
  rule = make_rule lib.compiles lib.regex_match

  unfoldable pub file_rule : Bytes → RouteRule (RequestContext D) (Reply D)
  unfolding rule
  file_rule p = rule p (handle_static_file lib.files)

  unfoldable pub found :
      List (RouteRule (RequestContext D) (Reply D))
      → HttpRequest
      → Bytes
      → RequestContext D
      → Reply D
  found rules req path ctx =
      answer_of lib.compiles lib.regex_match replied
        (first_match lib.compiles lib.regex_match rules path) req ctx

  pub found-cons :
      (r : RouteRule (RequestContext D) (Reply D))
      (rs : List (RouteRule (RequestContext D) (Reply D))) (req : HttpRequest) (path : Bytes)
      (ctx : RequestContext D)
      → found (r ∷ rs) req path ctx ≡ (
          if rule_matches lib.compiles lib.regex_match r path
          then r.handler req ctx
          else found rs req path ctx)
  unfolding found first_match answer_of
  found-cons r rs req path ctx =
      elim (Bool-cases (rule_matches lib.compiles lib.regex_match r path)) [
        | inl here ↦ rw here refl
        | inr later ↦ rw later refl
      ]

  unfoldable pub rules_for : HttpMethod → Routes lib → List (RouteRule (RequestContext D) (Reply D))
  rules_for = rules_of lib.compiles lib.regex_match

  none_for : (m : HttpMethod) → rules_for m [] ≡ []
  unfolding rules_for rules_of Maps.get
  none_for m = refl

  rules_for-add :
      (m : HttpMethod) (path : Bytes) (h : HttpRequest → RequestContext D → Reply D)
      (routes : Routes lib)
      → rules_for m (add lib m path h routes) ≡ rules_for m routes ++ rule path h ∷ []
  unfolding rules_for rule add method_beq
  rules_for-add m path h routes =
      rules_of-add_route lib.compiles lib.regex_match m m path h routes
      ∙ rw (method_beq_refl m) refl

  rules_for-other :
      (m n : HttpMethod) (path : Bytes) (h : HttpRequest → RequestContext D → Reply D)
      (routes : Routes lib)
      → method_beq m n ≡ false
      → rules_for n (add lib m path h routes) ≡ rules_for n routes
  unfolding rules_for add
  rules_for-other m n path h routes ne =
      rules_of-add_route lib.compiles lib.regex_match m n path h routes ∙ rw ne refl

  pub rules_for-files :
      (ps : List Bytes) (routes : Routes lib)
      → rules_for get (add_files lib ps routes) ≡ rules_for get routes ++ map file_rule ps
  unfolding add_files file_rule rule
  rules_for-files [] routes = sym (append-nil (rules_for get routes))
  rules_for-files (p ∷ ps) routes =
      rules_for-files ps (add lib get p (handle_static_file lib.files) routes)
      ∙ rw (rules_for-add get p (handle_static_file lib.files) routes)
          (append_assoc (rules_for get routes) _ (map file_rule ps))

  pub others_for-files :
      (n : HttpMethod) (ps : List Bytes) (routes : Routes lib)
      → method_beq get n ≡ false
      → rules_for n (add_files lib ps routes) ≡ rules_for n routes
  unfolding add_files
  others_for-files n [] routes ne = refl
  others_for-files n (p ∷ ps) routes ne =
      others_for-files n ps (add lib get p (handle_static_file lib.files) routes) ne
      ∙ rules_for-other get n p (handle_static_file lib.files) routes ne

  pub plain :
      Bytes → (HttpRequest → RequestContext D → Reply D) → RouteRule (RequestContext D) (Reply D)
  plain p h = record { pattern = p; handler = h; is_regex = false }

  rule-plain :
      (p : Bytes) (h : HttpRequest → RequestContext D → Reply D)
      → is_regex_pattern p ≡ false
      → rule p h ≡ plain p h
  unfolding rule make_rule plain
  rule-plain p h e = rw e refl

  abbrev pub upgrade_handler : HttpRequest → RequestContext D → Reply D
  upgrade_handler = handle_websocket_upgrade (generate_accept_value lib.sha1 lib.base64)

  pub gets :
      (picks : ℕ → ℕ)
      → rules_for get (api_routes lib picks)
        ≡ plain test_path handle_simple_json_get
          ∷ plain validate_path handle_validate_session
          ∷ plain logout_path handle_logout
          ∷ plain upgrade_path upgrade_handler
          ∷ []
  unfolding api_routes is_regex_pattern find_if one_of method_beq
  gets picks =
      rw
        (
          rules_for-add get upgrade_path upgrade_handler _,
          rules_for-add get logout_path handle_logout _,
          rules_for-add get validate_path handle_validate_session _,
          rules_for-other post get login_path (handle_login lib.mysql_query lib.rows picks) _ refl,
          rules_for-other post get register_path (handle_register lib.mysql_query lib.rows) _ refl,
          rules_for-add get test_path handle_simple_json_get _,
          rule-plain test_path handle_simple_json_get refl,
          rule-plain validate_path handle_validate_session refl,
          rule-plain logout_path handle_logout refl,
          rule-plain upgrade_path upgrade_handler refl,
          none_for get,
        )
        refl

  pub posts :
      (picks : ℕ → ℕ)
      → rules_for post (api_routes lib picks)
        ≡ plain register_path (handle_register lib.mysql_query lib.rows)
          ∷ plain login_path (handle_login lib.mysql_query lib.rows picks)
          ∷ []
  unfolding api_routes is_regex_pattern find_if one_of method_beq
  posts picks =
      rw
        (
          rules_for-other get post upgrade_path upgrade_handler _ refl,
          rules_for-other get post logout_path handle_logout _ refl,
          rules_for-other get post validate_path handle_validate_session _ refl,
          rules_for-add post login_path (handle_login lib.mysql_query lib.rows picks) _,
          rules_for-add post register_path (handle_register lib.mysql_query lib.rows) _,
          rules_for-other get post test_path handle_simple_json_get _ refl,
          rule-plain register_path (handle_register lib.mysql_query lib.rows) refl,
          rule-plain login_path (handle_login lib.mysql_query lib.rows picks) refl,
          none_for post,
        )
        refl

  pub others :
      (picks : ℕ → ℕ) (m : HttpMethod)
      → method_beq get m ≡ false
      → method_beq post m ≡ false
      → rules_for m (installed lib picks) ≡ []
  unfolding installed api_routes
  others picks m no_get no_post =
      rw
        (
          others_for-files m file_patterns (api_routes lib picks) no_get,
          rules_for-other get m upgrade_path upgrade_handler _ no_get,
          rules_for-other get m logout_path handle_logout _ no_get,
          rules_for-other get m validate_path handle_validate_session _ no_get,
          rules_for-other post m login_path (handle_login lib.mysql_query lib.rows picks) _ no_post,
          rules_for-other post m register_path (handle_register lib.mysql_query lib.rows) _ no_post,
          rules_for-other get m test_path handle_simple_json_get _ no_get,
        )
        (none_for m)

  pub found-plain :
      (p : Bytes) (h : HttpRequest → RequestContext D → Reply D)
      (rs : List (RouteRule (RequestContext D) (Reply D))) (req : HttpRequest) (path : Bytes)
      (ctx : RequestContext D)
      → found (plain p h ∷ rs) req path ctx
        ≡ (if bytes_eq path p then h req ctx else found rs req path ctx)
  unfolding plain rule_matches
  found-plain p h rs req path ctx = found-cons (plain p h) rs req path ctx
