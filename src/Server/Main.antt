-- ===== src/Server/Main.antt =====
-- `WebServer::eventListen`, the destructor of src/webserver/WebServer.cpp, and main.cpp.
use linux_cpp_web_server.Common.{
  ℕ, suc, Bool, true, false, ◌||◌, Option, none, some, List, [], ◌∷◌, ◌++◌, map, if◌then◌else◌,
}
use linux_cpp_web_server.Common.Bytes.{Bytes}
use linux_cpp_web_server.Config.{Config, default_config, parse_arg}
use linux_cpp_web_server.MainReactor.{
  Event, LoopEnd, stopped, waiting, event_loop, send_all, stop_message, sigint, sigalrm, sigterm,
}
use linux_cpp_web_server.Reactor.{Job}
use linux_cpp_web_server.Sql.{ℤ, pos, destroy_pool}
use linux_cpp_web_server.ThreadPool.{ThreadPool, shut_down}
use linux_cpp_web_server.Handler.{RequestContext}
use linux_cpp_web_server.Tools.Descriptors.{no_fd, is_negative, is_no_fd, close_fd}
use linux_cpp_web_server.Server.{Server, Machine, new_server, init}

-- What the kernel answers to `eventListen`.
pub record Sockets : Type 0 where
  pub socket : ℤ
  pub bind : ℤ
  pub listen : ℤ
  pub epoll_create : ℤ
  pub socketpair : ℤ
  pub pipe_read : ℤ
  pub pipe_write : ℤ

-- `Tools::addsig`: the signal, whether it goes to `Tools::sig_handler`, and `SA_RESTART`. `sigaction` fails
-- for no signal that the server names.
unfoldable pub addsig : ℕ → Bool → Bool → List (ℕ × Bool × Bool) → List (ℕ × Bool × Bool)
addsig sig handler restart handled = handled ++ (sig, handler, restart) ∷ []

abbrev pub sigpipe : ℕ
sigpipe = 13

unfoldable pub stop_workers : Option (ThreadPool Job) → Option (ThreadPool Job)
stop_workers none = none
stop_workers (some workers) = some (shut_down workers)

module _ {D : Type 0} where
  -- The last part of `eventListen`.
  unfoldable pub listening : Sockets → Server D → Server D
  unfolding addsig
  listening k s = record s {
    listenfd = k.socket;
    epollfd = k.epoll_create;
    pipe_read = k.pipe_read;
    pipe_write = k.pipe_write;
    watched = s.watched ++ k.socket ∷ k.pipe_read ∷ [];
    handled = addsig sigterm true false (
        addsig sigalrm true false (addsig sigint true false (addsig sigpipe false true s.handled)));
    loop = record s.loop { alarms = suc s.loop.alarms };
  }

  unfoldable pub event_listen : Sockets → Server D → Option (Server D)
  event_listen k s =
      if is_negative k.socket
        || is_negative k.bind
        || is_negative k.listen
        || is_no_fd k.epoll_create
        || is_no_fd k.socketpair
      then none
      else some (listening k s)

  -- `if (m_connPool) m_connPool->DestroyPool();`
  unfoldable pub destroy_context : RequestContext D → RequestContext D
  destroy_context ctx = elim ctx.db_pool [
    | none ↦ ctx
    | some sql ↦ record ctx { db_pool = some (destroy_pool sql).1 }
  ]

  -- `WebServer::~WebServer`. What is left of the worker threads is the pool that `ThreadPool::~ThreadPool`
  -- has told to stop; the joins wait.
  unfoldable pub destroy : Server D → Server D
  unfolding close_fd destroy_context stop_workers
  destroy s = record s {
    loop = record s.loop { stop_server = true; pipes = send_all stop_message s.loop.pipes };
    closed =
        close_fd s.pipe_read
          (close_fd s.pipe_write (close_fd s.listenfd (close_fd s.epollfd s.closed)));
    epollfd = no_fd;
    listenfd = no_fd;
    pipe_read = no_fd;
    pipe_write = no_fd;
    pool = stop_workers s.pool;
    context = destroy_context s.context;
    root = none;
  }

  -- `WebServer::eventLoop`, on what `epoll_wait` reports. The descriptors that it closes are closed after
  -- those that were closed before.
  unfoldable pub run_loop : List (Option (List Event)) → Server D → Option (LoopEnd × Server D)
  run_loop events s = elim (event_loop events s.loop) [
    | none ↦ none
    | some r ↦ some (r.0, record s { loop = r.1; closed = s.closed ++ map pos r.1.closed })
  ]

  -- The destructor runs when the loop has ended.
  unfoldable pub after_loop : LoopEnd × Server D → LoopEnd × Server D
  after_loop (stopped, s) = (stopped, destroy s)
  after_loop (waiting, s) = (waiting, s)

  -- `main`: with a timeout of 3 seconds, the default of `init`.
  unfoldable pub start_server : Config → Machine → Sockets → D → Option (Server D)
  start_server c machine k db =
      elim (init machine c.port c.sql_num c.thread_num c.close_log 3 (new_server db)) [
        | none ↦ none
        | some s ↦ event_listen k s
      ]

  unfoldable pub main :
      (Bytes → ℤ)
      → List (ℕ × Bytes)
      → Machine
      → Sockets
      → List (Option (List Event))
      → D
      → Option (LoopEnd × Server D)
  unfolding run_loop
  main atoi opts machine k events db =
      elim (start_server (parse_arg atoi opts default_config) machine k db) [
        | none ↦ none
        | some s ↦ elim (run_loop events s) [ none ↦ none | some r ↦ some (after_loop r) ]
      ]
