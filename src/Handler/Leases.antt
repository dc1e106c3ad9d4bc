-- ===== src/Handler/Leases.antt =====
-- The connection that a handler of src/Handler.cpp takes from the pool of src/SqlConnectionPool.cpp, and
-- gives back when `connectionRAII` is destroyed. Other handlers hold the connections `lent` meanwhile.
use linux_cpp_web_server.Common.{ℕ, ◌≡◌, ◌≢◌, refl, Bool, Option, some, List, ◌∷◌, ==_refl, arith}
use mathlib.Core.Path.{subst}
use linux_cpp_web_server.Common.Bytes.{Bytes}
use linux_cpp_web_server.Http.Request.{HttpRequest}
use linux_cpp_web_server.Http.Response.{HttpResponse}
use linux_cpp_web_server.Sql.{SqlConnectionPool, release_connection}
use linux_cpp_web_server.Sql.Leases.{Accounted, count, give_back, lend_from, release-Accounted}
use linux_cpp_web_server.Handler.Replies.{Holds, with_fields-Holds, with_connection-Holds}
use linux_cpp_web_server.Handler.{
  RequestContext, with_connection, release_after, handle_register, handle_login,
}

module _ {D : Type 0} where
  -- The pool of a context, if there is one, accounts for `all` while `lent` are out.
  abbrev pub PoolAccounted : List ℕ → List ℕ → RequestContext D → Type 0
  PoolAccounted all lent ctx =
      (pool : SqlConnectionPool) → ctx.db_pool ≡ some pool → Accounted all pool lent

  abbrev pub Returned : List ℕ → List ℕ → HttpResponse → RequestContext D → Type 0
  Returned all lent r ctx = PoolAccounted all lent ctx

give_back_front : (con : ℕ) (lent : List ℕ) → give_back con (con ∷ lent) ≡ lent
unfolding give_back
give_back_front con lent = rw (==_refl con) refl

count_front : (con : ℕ) (lent : List ℕ) → count con (con ∷ lent) ≢ 0
unfolding count
count_front con lent h = ground (arith, ==_refl con)

module _ {D : Type 0} (all lent : List ℕ) where
  with_connection-Returned :
      (ctx : RequestContext D) (act : ℕ → HttpResponse × RequestContext D)
      → PoolAccounted all lent ctx
      → Holds (Returned all lent) (with_connection ctx act)
  unfolding release_after
  with_connection-Returned ctx act h =
      with_connection-Holds (Returned all lent) ctx act (λ pool same. h pool same)
        (λ pool taken con is_pool e q same.
          subst (λ x. Accounted all x lent) (cc same)
            (subst (Accounted all (release_connection (some con) taken).1)
              (give_back_front con lent)
              (release-Accounted all taken (con ∷ lent) con (count_front con lent)
                (lend_from all pool lent pool.conn_list con taken refl e (h pool is_pool)))))

  pub handle_register-Returned :
      (mysql_query : ℕ → Bytes → D → Bool × D) (rows : ℕ → D → Option ℕ × D) (req : HttpRequest)
      (ctx : RequestContext D)
      → PoolAccounted all lent ctx
      → Holds (Returned all lent) (handle_register mysql_query rows req ctx)
  unfolding handle_register
  handle_register-Returned mysql_query rows req ctx h =
      with_fields-Holds (Returned all lent) req ctx _ (λ pool same. h pool same)
        (λ pool same. h pool same) (with_connection-Returned ctx _ h)

  pub handle_login-Returned :
      (mysql_query : ℕ → Bytes → D → Bool × D) (rows : ℕ → D → Option ℕ × D) (picks : ℕ → ℕ)
      (req : HttpRequest) (ctx : RequestContext D)
      → PoolAccounted all lent ctx
      → Holds (Returned all lent) (handle_login mysql_query rows picks req ctx)
  unfolding handle_login
  handle_login-Returned mysql_query rows picks req ctx h =
      with_fields-Holds (Returned all lent) req ctx _ (λ pool same. h pool same)
        (λ pool same. h pool same) (with_connection-Returned ctx _ h)
