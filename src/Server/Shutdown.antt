-- ===== src/Server/Shutdown.antt =====
-- How main.cpp ends: the loop of src/webserver/WebServer.cpp, and the destructor.
use linux_cpp_web_server.Common.{
  ℕ, ◌+◌, ◌≡◌, true, Option, none, some, List, [], ◌∷◌, ◌++◌, All, map, length,
}
use linux_cpp_web_server.Common.Bytes.{Bytes}
use linux_cpp_web_server.Config.{Config}
use linux_cpp_web_server.MainReactor.{Event, stop_message}
use linux_cpp_web_server.MainReactor.Ends.{all_hung_up}
use linux_cpp_web_server.MainReactor.Shares.{arrivals}
use linux_cpp_web_server.Reactor.{Job}
use linux_cpp_web_server.Sql.{ℤ, pos, SqlConnectionPool}
use linux_cpp_web_server.ThreadPool.{ThreadPool}
use linux_cpp_web_server.Tools.Descriptors.{no_fd}
use linux_cpp_web_server.Server.{Server}
use linux_cpp_web_server.Server.Main.{Sockets}

-- The connections that all rounds of the loop may accept.
unfoldable pub all_arrivals : List (Option (List Event)) → ℕ
all_arrivals [] = 0
all_arrivals (none ∷ rounds) = 0
all_arrivals (some es ∷ rounds) = arrivals es + all_arrivals rounds

-- The last message to the sub reactor is the one that stops it.
abbrev pub Told : List ℤ → Type 0
Told sent = (before : List ℤ) × (sent ≡ before ++ stop_message ∷ [])

-- What the server leaves after the answers `rounds`: the descriptors that the loop closed on a hangup that
-- it did not expect, then its own four, in this order, so that one of the four that the loop had closed is
-- closed again; none held; every sub reactor told to stop as the last thing; the worker threads told to
-- stop; no database connection in the pool.
pub record Stopped {D : Type 0} (k : Sockets) (n : ℕ) (rounds : List (Option (List Event)))
    (s : Server D) : Type 0 where
  pub descriptors :
      s.closed
      ≡ map pos (all_hung_up rounds) ++ k.epoll_create ∷ k.socket ∷ k.pipe_write ∷ k.pipe_read ∷ []
  pub held :
      (s.epollfd ≡ no_fd) × (s.listenfd ≡ no_fd) × (s.pipe_write ≡ no_fd) × (s.pipe_read ≡ no_fd)
  pub reactors : length s.loop.pipes ≡ n
  pub told : All Told s.loop.pipes
  pub workers : (p : ThreadPool Job) × (s.pool ≡ some p) × (p.stop ≡ true)
  pub database : (sql : SqlConnectionPool) × (s.context.db_pool ≡ some sql) × (sql.conn_list ≡ [])
