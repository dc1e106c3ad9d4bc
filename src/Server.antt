-- ===== src/Server.antt =====
-- src/webserver/WebServer.cpp around its loop: the state and `init`. The state holds what is not in the loop: the
-- descriptors, of which -1 is none, the pools, and the context of the handlers. The routes are
-- `installed` of Routes. A pointer that is null is `none`, an exit or an exception the answer `none`.
-- Each sub reactor begins as `Reactor.init` has it; here it is its pipe.
pub mod Main
pub mod Startup
pub mod Shutdown
pub mod Routes
pub mod Rules
pub mod Table
pub mod Answers
pub mod Turns
pub mod LoggedIn
pub mod Tests
pub mod RunTests
use linux_cpp_web_server.Common.{
  ℕ, zero, suc, ◌+◌, ◌^◌, Bool, true, false, ◌&&◌, ◌||◌, Option, none, some, List, [], ◌∷◌, ◌++◌,
  ◌==◌, if◌then◌else◌, ltb,
}
use linux_cpp_web_server.Common.Bytes.{Bytes, codes}
use linux_cpp_web_server.Config.{Config, default_config, parse_arg}
use linux_cpp_web_server.MainReactor.{
  WebServer, Event, event_loop, send_all, stop_message, sigint, sigalrm, sigterm,
}
use linux_cpp_web_server.Tools.Descriptors.{no_fd}
use linux_cpp_web_server.Reactor.{Job}
use linux_cpp_web_server.Sql.{ℤ, pos, negsuc, SqlConnectionPool, destroy_pool}
use linux_cpp_web_server.Sql
use linux_cpp_web_server.ThreadPool.{ThreadPool, shut_down}
use linux_cpp_web_server.ThreadPool
use linux_cpp_web_server.Handler.{RequestContext}

pub record Server (D : Type 0) : Type 0 where
  pub port : ℤ
  pub close_log : ℤ
  pub root : Option Bytes
  pub epollfd : ℤ
  pub listenfd : ℤ
  pub pipe_read : ℤ
  pub pipe_write : ℤ
  pub timeout_sec : ℕ
  pub pool : Option (ThreadPool Job)
  pub context : RequestContext D
  pub loop : WebServer
  -- What the kernel was told: the descriptors of the epoll instance, the signals with their handlers and
  -- `SA_RESTART`, and what was closed.
  pub watched : List ℤ
  pub handled : List (ℕ × Bool × Bool)
  pub closed : List ℤ

-- What the system answers while the server starts: the connections to the database in order, the
-- working directory, and the number of processors, an `unsigned int`.
pub record Machine : Type 0 where
  pub connects : ℕ → Option ℕ
  pub getcwd : Option Bytes
  pub hardware_concurrency : ℕ

-- The connections to the database that the loop of `SqlConnectionPool::init` asks for.
unfoldable pub connections_from : (ℕ → Option ℕ) → ℕ → ℕ → List (Option ℕ)
connections_from connects i zero = []
connections_from connects i (suc n) = connects i ∷ connections_from connects (suc i) n

unfoldable pub asked_for : ℤ → ℕ
asked_for (pos n) = n
asked_for (negsuc n) = 0

-- The number of sub reactors, an `int`.
unfoldable pub sub_reactors : ℕ → ℕ
sub_reactors hardware = if ltb 0 hardware && ltb hardware (2 ^ 31) then hardware else 8

unfoldable pub empty_pipes : ℕ → List (List ℤ)
empty_pipes zero = []
empty_pipes (suc n) = [] ∷ empty_pipes n

module _ {D : Type 0} where
  -- The constructor, and the database library as it is at first. The members of `m_pipefd`, which the
  -- constructor leaves, are set by `init`.
  unfoldable pub new_server : D → Server D
  new_server db = record {
    port = pos 0;
    close_log = pos 0;
    root = none;
    epollfd = no_fd;
    listenfd = no_fd;
    pipe_read = no_fd;
    pipe_write = no_fd;
    timeout_sec = 15;
    pool = none;
    context = record { db_pool = none; doc_root = []; sessions = []; db = db };
    loop = record {
      stop_server = false;
      sub_reactor_num = 0;
      round_robin_counter = 0;
      pipes = [];
      alarms = 0;
      closed = [];
    };
    watched = [];
    handled = [];
    closed = [];
  }

  -- The last part of `init`, where nothing fails any more.
  unfoldable pub ready :
      Machine → ℤ → ℤ → ℕ → SqlConnectionPool → ThreadPool Job → Bytes → Server D → Server D
  ready machine port close_log timeout_sec sql workers cwd s = record s {
    port = port;
    close_log = close_log;
    timeout_sec = timeout_sec;
    pipe_read = no_fd;
    pipe_write = no_fd;
    root = some (cwd ++ codes "/root");
    pool = some workers;
    context = record s.context { db_pool = some sql; doc_root = cwd ++ codes "/root" };
    loop = record s.loop {
      stop_server = false;
      round_robin_counter = 0;
      sub_reactor_num = sub_reactors machine.hardware_concurrency;
      pipes = empty_pipes (sub_reactors machine.hardware_concurrency);
    };
  }

  -- `WebServer::init`: the database, the worker threads, the root and the sub reactors, in this order.
  unfoldable pub init : Machine → ℤ → ℤ → ℤ → ℤ → ℕ → Server D → Option (Server D)
  init machine port sql_num thread_num close_log timeout_sec s =
      elim (Sql.init (connections_from machine.connects 0 (asked_for sql_num)) Sql.empty_pool) [
        | none ↦ none
        | some sql ↦ elim (ThreadPool.init {A = Job} thread_num (pos 10000)) [
          | none ↦ none
          | some (threads, workers) ↦ elim machine.getcwd [
            | none ↦ none
            | some cwd ↦ some (ready machine port close_log timeout_sec sql workers cwd s)
          ]
        ]
      ]
