-- ===== src/Sql.antt =====
-- src/SqlConnectionPool.cpp: the pool of database connections. A connection is a number that is not
-- NULL; `none` is a NULL. The MySQL library connects: what it returns is a list, and after a NULL the
-- process exits. The wait in `GetConnection` is the answer `none`.
pub mod Leases
pub mod Tests
use linux_cpp_web_server.Common.{
  ℕ, zero, suc, ◌+◌, Bool, true, false, Option, none, some, List, [], ◌∷◌, ◌++◌, length,
}

-- `int`, for the counters.
pub data ℤ : Type 0 where
  pos : ℕ → ℤ
  negsuc : ℕ → ℤ

unfoldable pub increment : ℤ → ℤ
increment (pos n) = pos (suc n)
increment (negsuc zero) = pos zero
increment (negsuc (suc n)) = negsuc n

unfoldable pub decrement : ℤ → ℤ
decrement (pos (suc n)) = pos n
decrement (pos zero) = negsuc zero
decrement (negsuc n) = negsuc (suc n)

pub record SqlConnectionPool : Type 0 where
  pub max_conn : ℤ
  pub cur_conn : ℤ
  pub free_conn : ℤ
  pub conn_list : List ℕ

unfoldable pub empty_pool : SqlConnectionPool
empty_pool = record { max_conn = pos 0; cur_conn = pos 0; free_conn = pos 0; conn_list = [] }

-- The loop of `init`: `none` is `exit(1)`.
unfoldable pub connect_all : List (Option ℕ) → SqlConnectionPool → Option SqlConnectionPool
connect_all [] p = some p
connect_all (none ∷ rest) p = none
connect_all (some con ∷ rest) p =
    connect_all rest
      (record p { conn_list = p.conn_list ++ con ∷ []; free_conn = increment p.free_conn })

unfoldable pub init : List (Option ℕ) → SqlConnectionPool → Option SqlConnectionPool
unfolding connect_all
init connected p = elim (connect_all connected p) [
  | none ↦ none
  | some q ↦ some (record q { max_conn = q.free_conn })
]

unfoldable pub get_connection : SqlConnectionPool → Option (ℕ × SqlConnectionPool)
get_connection p = elim p.conn_list [
  | [] ↦ none
  | con ∷ rest ↦ some (
    con,
    record p {
      conn_list = rest;
      free_conn = decrement p.free_conn;
      cur_conn = increment p.cur_conn;
    },
  )
]

unfoldable pub release_connection : Option ℕ → SqlConnectionPool → Bool × SqlConnectionPool
release_connection none p = (false, p)
release_connection (some con) p = (
  true,
  record p {
    conn_list = p.conn_list ++ con ∷ [];
    free_conn = increment p.free_conn;
    cur_conn = decrement p.cur_conn;
  },
)

-- The connections that are closed, and the pool.
unfoldable pub destroy_pool : SqlConnectionPool → List ℕ × SqlConnectionPool
destroy_pool p = elim p.conn_list [
  | [] ↦ ([], p)
  | con ∷ rest ↦ (con ∷ rest, record p { cur_conn = pos 0; free_conn = pos 0; conn_list = [] })
]

unfoldable pub get_free_conn : SqlConnectionPool → ℤ
get_free_conn p = p.free_conn
