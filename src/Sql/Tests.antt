-- ===== src/Sql/Tests.antt =====
-- A pool of two connections.
use linux_cpp_web_server.Common.{◌≡◌, refl, some, [], ◌∷◌, map}
use linux_cpp_web_server.Sql.{
  SqlConnectionPool, pos, increment, decrement, connect_all, init, empty_pool, get_connection,
}
use linux_cpp_web_server.Sql.Leases.{Run, start, step, lend, Accounted, init-Run-Accounted}

abbrev full : SqlConnectionPool
full = record { max_conn = pos 2; cur_conn = pos 0; free_conn = pos 2; conn_list = 7 ∷ 8 ∷ [] }

abbrev lent : SqlConnectionPool
lent = record { max_conn = pos 2; cur_conn = pos 1; free_conn = pos 1; conn_list = 8 ∷ [] }

full-init : init (map some (7 ∷ 8 ∷ [])) empty_pool ≡ some full
unfolding init connect_all empty_pool increment
full-init = refl

lent-Run : Run full lent (7 ∷ [])
unfolding get_connection increment decrement
lent-Run = step full lent [] (7 ∷ []) start (lend full [] 7 lent refl)

init-Run-Accounted_example : Accounted (7 ∷ 8 ∷ []) lent (7 ∷ [])
init-Run-Accounted_example = init-Run-Accounted (7 ∷ 8 ∷ []) full lent (7 ∷ []) full-init lent-Run
