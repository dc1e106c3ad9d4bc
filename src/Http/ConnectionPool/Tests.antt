-- ===== src/Http/ConnectionPool/Tests.antt =====
-- A connection that is given back with bytes in its buffers, and a buffer that is given back and taken.
use linux_cpp_web_server.Common.{arith, ℕ, ◌≤◌, true, none, some, List, [], ◌∷◌}
use linux_cpp_web_server.Common.Bytes.{codes}
use linux_cpp_web_server.Http.BufferPool
use linux_cpp_web_server.Http.BufferPool.{
  no_buffers, after_all, acquires, releases, acquire-after_all,
}
use linux_cpp_web_server.Http.Connection.{HttpConnection}
use linux_cpp_web_server.Http.Connection
use linux_cpp_web_server.Http.ConnectionPool.{
  HttpConnectionPool, empty_pool, acquire, managed, release_managed,
}
use linux_cpp_web_server.Http.ConnectionPool.Clean.{Clean}
use linux_cpp_web_server.Http.ConnectionPool.Owners.{
  Run, start, step, construct, work, give_back, IsValid, Run-acquire-Clean,
}

abbrev used : HttpConnection
used = record Connection.init { read_buffer = codes "secret"; is_writing = true }

abbrev made : HttpConnectionPool
made = (managed empty_pool).1

abbrev given : HttpConnectionPool
given = (release_managed (some used) made).1

given-Run : Run empty_pool (none ∷ []) given
unfolding managed acquire Connection.init empty_pool Connection.reset_for_keep_alive release_managed
given-Run =
    step (some used ∷ []) (none ∷ []) made given
      (step (some Connection.init ∷ []) (some used ∷ []) made made
        (step [] (some Connection.init ∷ []) empty_pool made start (construct [] empty_pool))
        (work [] [] Connection.init used made))
      (give_back [] [] (some used) made)

Run-acquire-Clean_example : IsValid (none ∷ []) given × Clean (acquire given).0
Run-acquire-Clean_example = Run-acquire-Clean (none ∷ []) given given-Run

exact_enough : (n : ℕ) → n ≤ n
exact_enough n = omega arith

abbrev two_calls : List BufferPool.Call
two_calls = acquires 4096 ∷ releases (record { bytes = codes "secret"; capacity = 4096 }) ∷ []

acquire-after_all_example :
    BufferPool.IsValid (after_all (λ n. n) two_calls no_buffers)
    × BufferPool.Fresh
        (λ n. n)
        exact_enough
        8000
        (BufferPool.acquire (λ n. n) 8000 (after_all (λ n. n) two_calls no_buffers)).0
acquire-after_all_example = acquire-after_all (λ n. n) exact_enough two_calls 8000
