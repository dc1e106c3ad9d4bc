-- ===== src/Server/Turns.antt =====
-- Requests that the server answers one after another, by the routes of src/webserver/WebServer.cpp.
use linux_cpp_web_server.Common.{
  ℕ, ◌<◌, ◌≡◌, ◌≢◌, ◌⊎◌, refl, ap, sym, Option, none, some, List, [], ◌∷◌, ◌++◌, All, inl, inr,
  Bool-cases, arith,
}
use mathlib.Core.Path.{subst}
use linux_cpp_web_server.Common.Bytes.{is_empty}
use linux_cpp_web_server.Http.Request.{HttpRequest}
use linux_cpp_web_server.Sql.{SqlConnectionPool, get_connection}
use linux_cpp_web_server.Sql.Leases.{Accounted, count}
use linux_cpp_web_server.Handler.{
  RequestContext, Reply, replied, blocked, escaped, session_of, handle_simple_json_get,
  handle_register, handle_login, handle_validate_session, handle_logout, handle_websocket_upgrade,
}
use linux_cpp_web_server.Handler.Replies.{
  Holds, Holds-replied, with_fields-IsAnswer, with_connection-IsAnswer,
}
use linux_cpp_web_server.Handler.Total.{
  Throws, Ends, IsAnswer-Ends, Ends-cases, handle_static_file-Ends,
}
use linux_cpp_web_server.Handler.Leases.{PoolAccounted, Returned}
use linux_cpp_web_server.Server.Routes.{Library, answer_request}
use linux_cpp_web_server.Server.Table.{Compiles, answer_request-table}
use linux_cpp_web_server.Server.Answers.{table-each, answer_request-PoolAccounted}

-- A request, and the draws that its handler would make for a session id.
pub record Turn : Type 0 where
  pub picks : ℕ → ℕ
  pub request : HttpRequest

module _ {D : Type 0} (lib : Library D) where
  -- The context after a row of requests; `none` when a handler waits forever or throws.
  unfoldable pub answer_all : List Turn → RequestContext D → Option (RequestContext D)
  answer_all [] ctx = some ctx
  answer_all (t ∷ ts) ctx = elim (answer_request lib t.picks t.request ctx) [
    | replied r ctx' ↦ answer_all ts ctx'
    | blocked ↦ none
    | escaped ↦ none
  ]

  -- A property of contexts that every answer keeps holds after all of them.
  pub answer_all-kept :
      (P : RequestContext D → Type 0) (Ok : Turn → Type 0)
      → ((t : Turn) (ctx : RequestContext D)
          → Ok t
          → P ctx
          → Holds (λ r c. P c) (answer_request lib t.picks t.request ctx))
      → (ts : List Turn) (ctx ctx' : RequestContext D) → All Ok ts
      → P ctx
      → answer_all ts ctx ≡ some ctx'
      → P ctx'
  unfolding answer_all
  answer_all-kept P Ok one [] ctx ctx' ok h e = subst P (cc e) h
  answer_all-kept P Ok one (t ∷ ts) ctx ctx' (ok, oks) h e =
      by_reply (answer_request lib t.picks t.request ctx) (one t ctx ok h)
        (λ c. answer_all-kept P Ok one ts c ctx' oks) e
    where
      by_reply :
          (rep : Reply D)
          → Holds (λ r c. P c) rep
          → ((c : RequestContext D) → P c → answer_all ts c ≡ some ctx' → P ctx')
          → (elim rep as (λ x. Option (RequestContext D)) [
            | replied r c ↦ answer_all ts c
            | blocked ↦ none
            | escaped ↦ none
          ])
            ≡ some ctx'
          → P ctx'
      by_reply (replied r c) held rest q = rest c held q
      by_reply blocked held rest q = absurd (cc q)
      by_reply escaped held rest q = absurd (cc q)

  -- The turns `ts` stop at one on which the handler throws, those before it are answered, and `exists`
  -- throws on some path.
  pub record Threw (ts : List Turn) (ctx : RequestContext D) : Type 0 where
    pub before : List Turn
    pub at : Turn
    pub after : List Turn
    pub there : RequestContext D
    pub split : ts ≡ before ++ at ∷ after
    pub came : answer_all before ctx ≡ some there
    pub raised : answer_request lib at.picks at.request there ≡ escaped
    pub exists : Throws lib.files

  module _ (all lent : List ℕ) (con : ℕ) (spare : count con lent < count con all) where
    get_connection-spare :
        (pool : SqlConnectionPool) → Accounted all pool lent → get_connection pool ≢ none
    unfolding get_connection count
    get_connection-spare pool h e = by_list pool.conn_list refl
      where
        by_list : (l : List ℕ) → pool.conn_list ≡ l → ⊥
        by_list [] none_left = let c = h.each con in omega (arith, rw none_left at c, spare)
        by_list (c ∷ rest) some_left = cc (rw (get_connection, some_left) at e)

    answer_request-Ends :
        (picks : ℕ → ℕ) (req : HttpRequest) (ctx : RequestContext D)
        → Compiles lib
        → PoolAccounted all lent ctx
        → Ends lib.files (answer_request lib picks req ctx)
    unfolding handle_simple_json_get handle_validate_session handle_logout handle_websocket_upgrade
        handle_register handle_login
    answer_request-Ends picks req ctx c h =
        subst (Ends lib.files) (sym (answer_request-table lib picks req ctx c)) (
          table-each lib picks (Ends lib.files) req.method req.path req ctx (λ _. tt) (λ _. tt)
            (λ _. logout) (λ _. tt)
            (λ _.
              IsAnswer-Ends lib.files _
                (with_fields-IsAnswer req ctx _ (with_connection-IsAnswer ctx _ available)))
            (λ _.
              IsAnswer-Ends lib.files _
                (with_fields-IsAnswer req ctx _ (with_connection-IsAnswer ctx _ available)))
            (handle_static_file-Ends lib.files req ctx) tt)
      where
        available :
            (pool : SqlConnectionPool) → ctx.db_pool ≡ some pool → get_connection pool ≢ none
        available pool e = get_connection-spare pool (h pool e)

        logout : Ends lib.files (handle_logout req ctx)
        logout = elim (Bool-cases (is_empty (session_of req))) [
          | inl missing ↦ rw (handle_logout, missing) tt
          | inr given ↦ rw (handle_logout, given) tt
        ]

    -- While a connection to the database is spare, whatever is asked of the server one after another, no
    -- handler waits forever: either every request is answered, and in the end the pool accounts for the
    -- same connections, or the requests up to one are answered, on that one the handler throws, and
    -- `std::filesystem::exists` throws on some path. The patterns of files have to be regular expressions.
    pub answer_all-PoolAccounted :
        (ts : List Turn) (ctx : RequestContext D)
        → Compiles lib
        → PoolAccounted all lent ctx
        → ((ctx' : RequestContext D) × (answer_all ts ctx ≡ some ctx')
            × PoolAccounted all lent ctx')
          ⊎ Threw ts ctx
    unfolding answer_all
    answer_all-PoolAccounted [] ctx c h = inl (ctx, refl, λ pool e. h pool e)
    answer_all-PoolAccounted (t ∷ ts) ctx c h =
        elim (Ends-cases lib.files (answer_request lib t.picks t.request ctx)
          (answer_request-Ends t.picks t.request ctx c h)) [
            | inr (thrown, why) ↦ inr (record {
              before = [];
              at = t;
              after = ts;
              there = ctx;
              split = refl;
              came = refl;
              raised = thrown;
              exists = why;
            })
            | inl (r, next, e) ↦
                let kept =
                  Holds-replied (Returned all lent) (answer_request lib t.picks t.request ctx) r
                    next (answer_request-PoolAccounted lib t.picks all lent t.request ctx c h) e in
                elim (answer_all-PoolAccounted ts next c kept) [
                  | inl (last, done, accounted) ↦
                      inl (last, rw (answer_all, e) done, λ pool q. accounted pool q)
                  | inr stops ↦ inr (record {
                    before = t ∷ stops.before;
                    at = stops.at;
                    after = stops.after;
                    there = stops.there;
                    split = ap (◌∷◌ t) stops.split;
                    came = rw (answer_all, e) stops.came;
                    raised = stops.raised;
                    exists = stops.exists;
                  })
                ]
          ]
