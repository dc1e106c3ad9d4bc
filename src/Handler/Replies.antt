-- ===== src/Handler/Replies.antt =====
-- What holds of every response that a handler of src/Handler.cpp gives, along the branches that
-- registration and login share.
use linux_cpp_web_server.Common.{
  ℕ, ◌≡◌, ◌≢◌, refl, ◌||◌, none, some, inl, inr, Bool-cases, Option-cases,
}
use mathlib.Core.Path.{subst}
use linux_cpp_web_server.Common.Bytes.{codes, is_empty}
use linux_cpp_web_server.Tools.Text.{parse_form_field}
use linux_cpp_web_server.Http.Request.{HttpRequest}
use linux_cpp_web_server.Http.Response.{HttpResponse}
use linux_cpp_web_server.Sql.{SqlConnectionPool, get_connection}
use linux_cpp_web_server.Handler.{
  RequestContext, Reply, replied, blocked, escaped, is_post, with_fields, with_connection,
  with_pool, release_after, method_not_allowed, missing_fields, no_database,
}

module _ {D : Type 0} (Q : HttpResponse → RequestContext D → Type 0) where
  -- If the handler answers, `Q` holds of the response and of the context that it leaves.
  abbrev pub Holds : Reply D → Type 0
  Holds (replied r ctx) = Q r ctx
  Holds blocked = Unit
  Holds escaped = Unit

  pub Holds-replied :
      (reply : Reply D) (r : HttpResponse) (ctx : RequestContext D)
      → Holds reply
      → reply ≡ replied r ctx
      → Q r ctx
  Holds-replied reply r ctx h e = subst Holds e h

  pub replied-Holds :
      (reply : Reply D)
      → ((r : HttpResponse) (ctx : RequestContext D) → reply ≡ replied r ctx → Q r ctx)
      → Holds reply
  replied-Holds (replied r ctx) h = h r ctx refl
  replied-Holds blocked h = tt
  replied-Holds escaped h = tt

  pub with_fields-Holds :
      (req : HttpRequest) (ctx : RequestContext D) (rest : Reply D)
      → Q method_not_allowed ctx
      → Q missing_fields ctx
      → Holds rest
      → Holds (with_fields req ctx rest)
  unfolding with_fields
  with_fields-Holds req ctx rest not_post unfilled done = elim (Bool-cases (is_post req.method)) [
    | inr other ↦ rw (with_fields, other) not_post
    | inl posted ↦
        elim (Bool-cases (
          is_empty (parse_form_field req.raw_body (codes "username"))
          || is_empty (parse_form_field req.raw_body (codes "password")))) [
            | inl missing ↦ rw (with_fields, posted, missing) unfilled
            | inr given ↦ rw (with_fields, posted, given) done
          ]
  ]

  pub with_connection-Holds :
      (ctx : RequestContext D) (act : ℕ → HttpResponse × RequestContext D)
      → Q no_database ctx
      → ((pool lent : SqlConnectionPool) (con : ℕ)
          → ctx.db_pool ≡ some pool
          → get_connection pool ≡ some (con, lent)
          → Holds (release_after con lent (act con)))
      → Holds (with_connection ctx act)
  unfolding with_connection with_pool
  with_connection-Holds ctx act without h = elim (Option-cases ctx.db_pool) [
    | inl e ↦ rw (with_connection, e) without
    | inr (pool, e) ↦ elim (Option-cases (get_connection pool)) [
      | inl waits ↦ rw (with_connection, e, with_pool, waits) tt
      | inr ((con, lent), took) ↦ rw (with_connection, e, with_pool, took) (h pool lent con e took)
    ]
  ]

module _ {D : Type 0} where
  -- The handler neither waits for a connection nor throws.
  abbrev pub IsAnswer : Reply D → Type 0
  IsAnswer (replied r ctx) = Unit
  IsAnswer blocked = ⊥
  IsAnswer escaped = ⊥

  pub with_fields-IsAnswer :
      (req : HttpRequest) (ctx : RequestContext D) (rest : Reply D)
      → IsAnswer rest
      → IsAnswer (with_fields req ctx rest)
  unfolding with_fields
  with_fields-IsAnswer req ctx rest h = elim (Bool-cases (is_post req.method)) [
    | inr other ↦ rw (with_fields, other) tt
    | inl posted ↦
        elim (Bool-cases (
          is_empty (parse_form_field req.raw_body (codes "username"))
          || is_empty (parse_form_field req.raw_body (codes "password")))) [
            | inl missing ↦ rw (with_fields, posted, missing) tt
            | inr given ↦ rw (with_fields, posted, given) h
          ]
  ]

  pub with_connection-IsAnswer :
      (ctx : RequestContext D) (act : ℕ → HttpResponse × RequestContext D)
      → ((pool : SqlConnectionPool) → ctx.db_pool ≡ some pool → get_connection pool ≢ none)
      → IsAnswer (with_connection ctx act)
  unfolding with_connection with_pool release_after
  with_connection-IsAnswer ctx act h = elim (Option-cases ctx.db_pool) [
    | inl e ↦ rw (with_connection, e) tt
    | inr (pool, e) ↦ elim (Option-cases (get_connection pool)) [
      | inl waits ↦ absurd (h pool e waits)
      | inr (taken, took) ↦ rw (with_connection, e, with_pool, took) tt
    ]
  ]
