-- ===== src/Handler/Kept.antt =====
-- The sessions that the handlers of src/Handler.cpp leave alone.
use linux_cpp_web_server.Common.{
  ◌⊎◌, sym, true, false, Bool, if◌then◌else◌, none, ℕ, ◌≡◌, ◌∙◌, Bool, false, Option, none, some,
  ◌==◌, inl, inr, Bool-cases,
}
use linux_cpp_web_server.Common.Bytes.{Bytes, codes, bytes_eq, is_empty}
use linux_cpp_web_server.Common.Maps
use linux_cpp_web_server.Common.Maps.{bytes_key, get-put, get-remove}
use linux_cpp_web_server.Tools.Text.{generate_session_id, parse_form_field}
use linux_cpp_web_server.Http.Request.{HttpRequest}
use linux_cpp_web_server.Http.Response.{HttpResponse}
use linux_cpp_web_server.Handler.{
  RequestContext, session_of, handle_register, handle_login, handle_logout, register, login,
  by_rows, open_session, release_after, select_sql,
}
use linux_cpp_web_server.Handler.Replies.{Holds, with_fields-Holds, with_connection-Holds}

module _ {D : Type 0} (session_id : Bytes) (user : Option Bytes) where
  -- What the session id stands for is as it was: a user, or nobody.
  abbrev pub Keeps : HttpResponse → RequestContext D → Type 0
  Keeps r ctx = Maps.get session_id ctx.sessions ≡ user

  pub handle_logout-Keeps :
      (req : HttpRequest) (ctx : RequestContext D)
      → Maps.get session_id ctx.sessions ≡ user
      → (bytes_eq (session_of req) session_id ≡ false) ⊎ (user ≡ none)
      → Holds Keeps (handle_logout req ctx)
  unfolding handle_logout
  handle_logout-Keeps req ctx h other = elim (Bool-cases (is_empty (session_of req))) [
    | inl missing ↦ rw (handle_logout, missing) h
    | inr given ↦
        rw (handle_logout, given)
          (get-remove (session_of req) session_id ctx.sessions
            ∙ without (bytes_eq (session_of req) session_id) other)
  ]
    where
      without :
          (b : Bool)
          → (b ≡ false) ⊎ (user ≡ none)
          → (if b then none else Maps.get session_id ctx.sessions) ≡ user
      without true (inl not_same) = absurd (cc not_same)
      without true (inr nobody) = sym nobody
      without false o = h

  module _ (mysql_query : ℕ → Bytes → D → Bool × D) (rows : ℕ → D → Option ℕ × D) where
    pub handle_register-Keeps :
        (req : HttpRequest) (ctx : RequestContext D)
        → Maps.get session_id ctx.sessions ≡ user
        → Holds Keeps (handle_register mysql_query rows req ctx)
    unfolding handle_register release_after register
    handle_register-Keeps req ctx h =
        with_fields-Holds Keeps req ctx _ h h
          (with_connection-Holds Keeps ctx _ h (λ pool lent con is_pool took. h))

    module _ (picks : ℕ → ℕ) (other : bytes_eq (generate_session_id picks) session_id ≡ false) where
      by_rows-Keeps :
          (name : Bytes) (o : Option ℕ) (ctx : RequestContext D)
          → Maps.get session_id ctx.sessions ≡ user
          → Maps.get session_id (by_rows picks name o ctx).1.sessions ≡ user
      unfolding by_rows open_session
      by_rows-Keeps name none ctx h = h
      by_rows-Keeps name (some n) ctx h = elim (Bool-cases (n == 0)) [
        | inl nobody ↦ rw (by_rows, nobody) h
        | inr found ↦
            rw (by_rows, found)
              (get-put (generate_session_id picks) session_id name ctx.sessions ∙ rw other h)
      ]

      login-Keeps :
          (req : HttpRequest) (ctx : RequestContext D) (con : ℕ)
          → Maps.get session_id ctx.sessions ≡ user
          → Maps.get session_id (login mysql_query rows picks req ctx con).1.sessions ≡ user
      unfolding login
      login-Keeps req ctx con h =
          elim (Bool-cases
            (mysql_query con
              (select_sql (parse_form_field req.raw_body (codes "username"))
                (parse_form_field req.raw_body (codes "password")))
              ctx.db).0) [
                | inl e ↦ rw (login, e) h
                | inr e ↦
                    rw (login, e)
                      (by_rows-Keeps (parse_form_field req.raw_body (codes "username")) _ _ h)
              ]

      pub handle_login-Keeps :
          (req : HttpRequest) (ctx : RequestContext D)
          → Maps.get session_id ctx.sessions ≡ user
          → Holds Keeps (handle_login mysql_query rows picks req ctx)
      unfolding handle_login release_after
      handle_login-Keeps req ctx h = with_fields-Holds Keeps req ctx _ h h (
          with_connection-Holds Keeps ctx _ h
            (λ pool lent con is_pool took. login-Keeps req ctx con h))
