-- ===== src/Server/Table.antt =====
-- What the routes of src/webserver/WebServer.cpp come to.
use linux_cpp_web_server.Common.{
  ℕ, ◌≡◌, refl, ◌∙◌, Bool, true, false, ◌||◌, List, [], ◌∷◌, if◌then◌else◌, map, All, inl, inr,
  Bool-cases,
}
use linux_cpp_web_server.Common.Bytes.{Bytes, bytes_eq, find_if}
use linux_cpp_web_server.Tools.Text.{generate_accept_value}
use linux_cpp_web_server.Http.Request.{HttpRequest, HttpMethod, get, post, head, unknown}
use linux_cpp_web_server.Http.Response.{make_error}
use linux_cpp_web_server.Http.Router.{
  make_rule, rule_matches, first_match, answer_of, answers, is_regex_pattern, method_beq,
}
use linux_cpp_web_server.Handler.{
  RequestContext, Reply, replied, handle_simple_json_get, handle_register, handle_login,
  handle_validate_session, handle_logout, handle_websocket_upgrade,
}
use linux_cpp_web_server.Handler.Static.{handle_static_file}
use linux_cpp_web_server.Server.Routes.{
  Library, api_routes, installed, answer_request, test_path, register_path, login_path,
  validate_path, logout_path, upgrade_path, file_patterns,
}
use linux_cpp_web_server.Server.Rules.{
  file_rule, found, found-cons, found-plain, gets, others, others_for-files, posts, rule, rules_for,
  rules_for-files, upgrade_handler,
}

module _ {D : Type 0} (lib : Library D) where
  -- A pattern of a file matches the path.
  unfoldable pub names_file : List Bytes → Bytes → Bool
  names_file [] path = false
  names_file (pattern ∷ patterns) path = lib.regex_match path pattern || names_file patterns path

  -- The patterns of files are regular expressions.
  abbrev pub Compiles : Type 0
  Compiles = All (λ p. lib.compiles p ≡ true) file_patterns

  -- Which handler a request is for: the table of the interface.
  unfoldable pub table : (ℕ → ℕ) → HttpMethod → Bytes → HttpRequest → RequestContext D → Reply D
  table picks get path req ctx =
      if bytes_eq path test_path
      then handle_simple_json_get req ctx
      else if bytes_eq path validate_path
      then handle_validate_session req ctx
      else if bytes_eq path logout_path
      then handle_logout req ctx
      else if bytes_eq path upgrade_path
      then handle_websocket_upgrade (generate_accept_value lib.sha1 lib.base64) req ctx
      else if names_file file_patterns path
      then handle_static_file lib.files req ctx
      else replied (make_error 404) ctx
  table picks post path req ctx =
      if bytes_eq path register_path
      then handle_register lib.mysql_query lib.rows req ctx
      else if bytes_eq path login_path
      then handle_login lib.mysql_query lib.rows picks req ctx
      else replied (make_error 404) ctx
  table picks head path req ctx = replied (make_error 404) ctx
  table picks unknown path req ctx = replied (make_error 404) ctx

  found-files :
      (ps : List Bytes) (req : HttpRequest) (path : Bytes) (ctx : RequestContext D)
      → All (λ p. lib.compiles p ≡ true) ps
      → All (λ p. is_regex_pattern p ≡ true) ps
      → found lib (map (file_rule lib) ps) req path ctx ≡ (
          if names_file ps path
          then handle_static_file lib.files req ctx
          else replied (make_error 404) ctx)
  unfolding names_file file_rule rule found first_match answer_of make_rule rule_matches
  found-files [] req path ctx c s = refl
  found-files (p ∷ ps) req path ctx (c, cs) (s, ss) =
      found-cons lib (file_rule lib p) (map (file_rule lib) ps) req path ctx
      ∙ (rw (make_rule, rule_matches, c, s)
          (elim (Bool-cases (lib.regex_match path p)) [
            | inl here ↦ rw here refl
            | inr later ↦ rw later (found-files ps req path ctx cs ss)
          ]))

  special : All (λ p. is_regex_pattern p ≡ true) file_patterns
  unfolding is_regex_pattern find_if
  special = (refl, (refl, (refl, (refl, (refl, (refl, (refl, (refl, tt))))))))

  found-by_method :
      (picks : ℕ → ℕ) (m : HttpMethod) (req : HttpRequest) (path : Bytes) (ctx : RequestContext D)
      → Compiles
      → found lib (rules_for lib m (installed lib picks)) req path ctx ≡ table picks m path req ctx
  unfolding table installed found first_match answer_of method_beq
  found-by_method picks get req path ctx c =
      rw
        (
          rules_for-files lib file_patterns (api_routes lib picks),
          gets lib picks,
          found-plain lib test_path handle_simple_json_get _ req path ctx,
          found-plain lib validate_path handle_validate_session _ req path ctx,
          found-plain lib logout_path handle_logout _ req path ctx,
          found-plain lib upgrade_path (upgrade_handler lib) _ req path ctx,
          found-files file_patterns req path ctx c special,
        )
        refl
  found-by_method picks post req path ctx c =
      rw
        (
          others_for-files lib post file_patterns (api_routes lib picks) refl,
          posts lib picks,
          found-plain lib register_path (handle_register lib.mysql_query lib.rows) _ req path ctx,
          found-plain lib login_path (handle_login lib.mysql_query lib.rows picks) _ req path ctx,
        )
        refl
  found-by_method picks head req path ctx c = rw (others lib picks head refl refl) refl
  found-by_method picks unknown req path ctx c = rw (others lib picks unknown refl refl) refl

  -- Where the patterns of files are regular expressions, the routes that the server installs answer every
  -- request as the table says: the interface under its exact paths, each by its own method, files by
  -- GET where a pattern matches the path, and 404 for the rest, and for every other method.
  pub answer_request-table :
      (picks : ℕ → ℕ) (req : HttpRequest) (ctx : RequestContext D)
      → Compiles
      → answer_request lib picks req ctx ≡ table picks req.method req.path req ctx
  unfolding answer_request found rules_for
  answer_request-table picks req ctx c =
      answers lib.compiles lib.regex_match replied (installed lib picks) req ctx
      ∙ found-by_method picks req.method req req.path ctx c
