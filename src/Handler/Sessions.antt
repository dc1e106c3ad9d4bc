-- ===== src/Handler/Sessions.antt =====
-- The life of a session in src/Handler.cpp: `handle_login` opens it, `handle_validate_session` reads it
-- and `handle_logout` ends it. The browser returns the cookie that `handle_login` set.
use linux_cpp_web_server.Common.{
  ℕ, ◌≡◌, refl, ap, sym, ◌∙◌, Bool, false, Option, none, some, List, ◌==◌, inl, inr, Bool-cases,
  arith,
}
use linux_cpp_web_server.Common.Bytes.{Bytes, codes, is_empty}
use linux_cpp_web_server.Common.Bytes.Search.{bytes_eq_refl}
use linux_cpp_web_server.Common.Maps
use linux_cpp_web_server.Common.Maps.{bytes_key, get-put, get-remove}
use linux_cpp_web_server.Tools.Text.{parse_form_field, generate_session_id}
use linux_cpp_web_server.Http.Request.{HttpRequest}
use linux_cpp_web_server.Http.Response.{HttpResponse, with_status, set_header}
use linux_cpp_web_server.Handler.Replies.{Holds, with_fields-Holds, with_connection-Holds}
use linux_cpp_web_server.Handler.{
  RequestContext, replied, json_response, validated, session_expired, logged_out, release_after,
  validate, handle_logout, open_session, by_rows, login, handle_login, select_sql,
}
use linux_cpp_web_server.Handler.Cookies.{generate_session_id-full, session_of-Carries, Carries}

-- What holds of the sessions when the response says 200.
abbrev pub OnOk :
    {D : Type 0} → (List (Bytes × Bytes) → Type 0) → HttpResponse → RequestContext D → Type 0
OnOk Q r ctx = r.status_code ≡ 200 → Q ctx.sessions

abbrev pub HasSession : Bytes → Bytes → List (Bytes × Bytes) → Type 0
HasSession session_id username sessions = Maps.get session_id sessions ≡ some username

module _ {D : Type 0} (mysql_query : ℕ → Bytes → D → Bool × D) (rows : ℕ → D → Option ℕ × D)
    (picks : ℕ → ℕ) where
  -- The session that a login opens.
  abbrev pub Opened : HttpRequest → List (Bytes × Bytes) → Type 0
  Opened req =
      HasSession (generate_session_id picks) (parse_form_field req.raw_body (codes "username"))

  by_rows-OnOk :
      (username : Bytes) (o : Option ℕ) (ctx : RequestContext D)
      → OnOk
          (HasSession (generate_session_id picks) username)
          (by_rows picks username o ctx).0
          (by_rows picks username o ctx).1
  unfolding by_rows open_session json_response with_status set_header
  by_rows-OnOk username none ctx = λ ok. absurd (omega arith)
  by_rows-OnOk username (some n) ctx = elim (Bool-cases (n == 0)) [
    | inl nobody ↦ rw (by_rows, nobody) (λ ok. absurd (omega arith))
    | inr found ↦
        rw (by_rows, found)
          (λ ok.
            get-put (generate_session_id picks) (generate_session_id picks) username ctx.sessions
            ∙ rw (bytes_eq_refl (generate_session_id picks)) refl)
  ]

  login-OnOk :
      (req : HttpRequest) (ctx : RequestContext D) (con : ℕ)
      → OnOk
          (Opened req)
          (login mysql_query rows picks req ctx con).0
          (login mysql_query rows picks req ctx con).1
  unfolding login json_response with_status set_header
  login-OnOk req ctx con =
      elim (Bool-cases
        (mysql_query con
          (select_sql (parse_form_field req.raw_body (codes "username"))
            (parse_form_field req.raw_body (codes "password")))
          ctx.db).0) [
            | inl e ↦ rw (login, e) (λ ok. absurd (omega arith))
            | inr e ↦
                rw (login, e) (by_rows-OnOk (parse_form_field req.raw_body (codes "username")) _ _)
          ]

  pub handle_login-OnOk :
      (req : HttpRequest) (ctx : RequestContext D)
      → Holds (OnOk (Opened req)) (handle_login mysql_query rows picks req ctx)
  unfolding handle_login json_response with_status set_header release_after
  handle_login-OnOk req ctx =
      with_fields-Holds (OnOk (Opened req)) req ctx _ (λ ok. absurd (omega arith))
        (λ ok. absurd (omega arith))
        (with_connection-Holds (OnOk (Opened req)) ctx _ (λ ok. absurd (omega arith))
          (λ pool lent con is_pool took. login-OnOk req ctx con))

  pub validate-has :
      (session_id username : Bytes) (ctx : RequestContext D)
      → is_empty session_id ≡ false
      → Maps.get session_id ctx.sessions ≡ some username
      → validate session_id ctx ≡ validated username session_id
  unfolding validate
  validate-has session_id username ctx full e = rw (validate, full, e) refl

  pub validate-none :
      (session_id : Bytes) (ctx : RequestContext D)
      → is_empty session_id ≡ false
      → Maps.get session_id ctx.sessions ≡ none
      → validate session_id ctx ≡ session_expired
  unfolding validate
  validate-none session_id ctx full e = rw (validate, full, e) refl

  -- A logout by a request that carries a session id of `generate_session_id` is answered by the
  -- response that clears the cookie, and in the context that it leaves the id stands for nobody.
  pub handle_logout-gone :
      (req : HttpRequest) (ctx ctx' : RequestContext D) (r : HttpResponse)
      → Carries (generate_session_id picks) req
      → handle_logout req ctx ≡ replied r ctx'
      → (r ≡ logged_out) × (Maps.get (generate_session_id picks) ctx'.sessions ≡ none)
  unfolding handle_logout
  handle_logout-gone req ctx ctx' r carries e =
      let id = session_of-Carries picks req carries in
      let q : replied logged_out
            (record ctx { sessions = Maps.remove (generate_session_id picks) ctx.sessions })
          ≡ replied r ctx' =
        rw (handle_logout, id, generate_session_id-full picks) at e in
      (
        cc q,
        ap (λ s. Maps.get (generate_session_id picks) s) (sym (cc q))
            ∙ get-remove (generate_session_id picks) (generate_session_id picks) ctx.sessions
            ∙ rw (bytes_eq_refl (generate_session_id picks)) refl,
      )
