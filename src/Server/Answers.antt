-- ===== src/Server/Answers.antt =====
-- What holds of every answer of the routes of src/webserver/WebServer.cpp.
use linux_cpp_web_server.Common.{
  ℕ, ◌≡◌, refl, sym, ◌∙◌, Bool, true, false, ◌||◌, List, if◌then◌else◌, inl, inr, Bool-cases, arith,
}
use mathlib.Core.Path.{subst}
use linux_cpp_web_server.Common.Bytes.{Bytes, bytes_eq, is_empty}
use linux_cpp_web_server.Common.Maps.{bytes_key}
use linux_cpp_web_server.Tools.Text.{generate_accept_value}
use linux_cpp_web_server.Http.Request.{HttpRequest, HttpMethod, get, post, head, unknown}
use linux_cpp_web_server.Http.Response.{HttpResponse, make_error}
use linux_cpp_web_server.Handler.{
  RequestContext, Reply, replied, session_of, handle_simple_json_get, handle_register, handle_login,
  handle_validate_session, handle_logout, handle_websocket_upgrade,
}
use linux_cpp_web_server.Handler.Replies.{Holds, Holds-replied, replied-Holds}
use linux_cpp_web_server.Handler.Static.{
  Served, answered, uncaught, handle_static_file, reply, serve, index_path,
}
use linux_cpp_web_server.Handler.Inside.{Inside, handle_static_file-Inside, not_found}
use linux_cpp_web_server.Handler.Leases.{
  PoolAccounted, Returned, handle_register-Returned, handle_login-Returned,
}
use linux_cpp_web_server.Server.Routes.{
  Library, answer_request, test_path, register_path, login_path, validate_path, logout_path,
  upgrade_path,
}
use linux_cpp_web_server.Server.Table.{Compiles, table, answer_request-table}

-- A path of the interface.
unfoldable pub is_api : Bytes → Bool
is_api path =
    bytes_eq path test_path
    || bytes_eq path validate_path
    || bytes_eq path logout_path
    || bytes_eq path upgrade_path
    || bytes_eq path register_path
    || bytes_eq path login_path

module _ {D : Type 0} (lib : Library D) (picks : ℕ → ℕ) where
  -- A property of replies that every handler of the table establishes for the request in hand.
  module _ (Q : Reply D → Type 0) where
    choose :
        (b : Bool) (x y : Reply D) → (b ≡ true → Q x) → (b ≡ false → Q y) → Q (if b then x else y)
    choose true x y h g = h refl
    choose false x y h g = g refl

    pub table-each :
        (m : HttpMethod) (path : Bytes) (req : HttpRequest) (ctx : RequestContext D)
        → (bytes_eq path test_path ≡ true → Q (handle_simple_json_get req ctx))
        → (bytes_eq path validate_path ≡ true → Q (handle_validate_session req ctx))
        → (bytes_eq path logout_path ≡ true → Q (handle_logout req ctx))
        → (bytes_eq path upgrade_path ≡ true
            → Q (handle_websocket_upgrade (generate_accept_value lib.sha1 lib.base64) req ctx))
        → (bytes_eq path register_path ≡ true
            → Q (handle_register lib.mysql_query lib.rows req ctx))
        → (bytes_eq path login_path ≡ true
            → Q (handle_login lib.mysql_query lib.rows picks req ctx))
        → Q (handle_static_file lib.files req ctx)
        → Q (replied (make_error 404) ctx)
        → Q (table lib picks m path req ctx)
    unfolding table
    table-each get path req ctx test validate logout upgrade register login file missing =
        choose _ _ _ test (λ _. choose _ _ _ validate (λ _.
          choose _ _ _ logout
            (λ _. choose _ _ _ upgrade (λ _. choose _ _ _ (λ _. file) (λ _. missing)))))
    table-each post path req ctx test validate logout upgrade register login file missing =
        choose _ _ _ register (λ _. choose _ _ _ login (λ _. missing))
    table-each head path req ctx test validate logout upgrade register login file missing = missing
    table-each unknown path req ctx test validate logout upgrade register login file missing =
        missing

  reply-Holds :
      (P : HttpResponse → RequestContext D → Type 0) (s : Served) (ctx : RequestContext D)
      → ((r : HttpResponse) → P r ctx)
      → Holds P (reply s ctx)
  unfolding reply
  reply-Holds P (answered r) ctx h = h r
  reply-Holds P uncaught ctx h = tt

  pub static-Holds :
      (P : HttpResponse → RequestContext D → Type 0) (req : HttpRequest) (ctx : RequestContext D)
      → ((r : HttpResponse) → P r ctx)
      → Holds P (handle_static_file lib.files req ctx)
  unfolding handle_static_file
  static-Holds P req ctx h =
      reply-Holds P (serve lib.files ctx.doc_root (index_path req.path)) ctx h

  -- A response 200 that is a file.
  abbrev FileInside : Bytes → HttpResponse → RequestContext D → Type 0
  FileInside doc_root r ctx' = r.status_code ≡ 200 → Inside lib.files doc_root r

  -- Whatever is asked of the server, a response 200 under a path that is not of the interface carries the
  -- content of a regular file, or its path, and the resolved path of the file begins with the resolved
  -- document root. The patterns of files have to be regular expressions.
  pub answer_request-Inside :
      (req : HttpRequest) (ctx ctx' : RequestContext D) (r : HttpResponse)
      → Compiles lib
      → is_api req.path ≡ false
      → answer_request lib picks req ctx ≡ replied r ctx'
      → r.status_code ≡ 200
      → Inside lib.files ctx.doc_root r
  unfolding is_api
  answer_request-Inside req ctx ctx' r c no_api e =
      Holds-replied (FileInside ctx.doc_root) (table lib picks req.method req.path req ctx) r ctx'
        (table-each (Holds (FileInside ctx.doc_root)) req.method req.path req ctx
          (λ h. absurd (ground arith)) (λ h. absurd (ground arith)) (λ h. absurd (ground arith))
          (λ h. absurd (ground arith)) (λ h. absurd (ground arith)) (λ h. absurd (ground arith))
          (replied-Holds (FileInside ctx.doc_root) (handle_static_file lib.files req ctx)
            (λ a ctx'' q. handle_static_file-Inside lib.files req ctx ctx'' a q))
          (λ ok. absurd (not_found ok)))
        (sym (answer_request-table lib picks req ctx c) ∙ e)

  -- Whatever is asked of the server, an answer leaves the pool of database connections as it was
  -- for the others: the connection that the handler took, if it took one, is in the pool again.
  pub answer_request-PoolAccounted :
      (all lent : List ℕ) (req : HttpRequest) (ctx : RequestContext D)
      → Compiles lib
      → PoolAccounted all lent ctx
      → Holds (Returned all lent) (answer_request lib picks req ctx)
  unfolding handle_simple_json_get handle_validate_session handle_logout handle_websocket_upgrade
  answer_request-PoolAccounted all lent req ctx c h =
      subst (Holds (Returned all lent)) (sym (answer_request-table lib picks req ctx c)) (
        table-each (Holds (Returned all lent)) req.method req.path req ctx (λ _. h) (λ _. h)
          (λ _. logout) (λ _. h)
          (λ _. handle_register-Returned all lent lib.mysql_query lib.rows req ctx h)
          (λ _. handle_login-Returned all lent lib.mysql_query lib.rows picks req ctx h)
          (static-Holds (Returned all lent) req ctx (λ r. h)) h)
    where
      logout : Holds (Returned all lent) (handle_logout req ctx)
      logout = elim (Bool-cases (is_empty (session_of req))) [
        | inl missing ↦ rw (handle_logout, missing) (λ pool same. h pool same)
        | inr given ↦ rw (handle_logout, given) (λ pool same. h pool same)
      ]
