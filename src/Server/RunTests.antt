-- ===== src/Server/RunTests.antt =====
-- A server with two sub reactors, started and stopped, and two options of its command line.
use linux_cpp_web_server.Common.{
  ℕ, ◌≡◌, refl, true, false, Option, none, some, List, [], ◌∷◌, arith,
}
use linux_cpp_web_server.Common.Bytes.{Bytes, codes}
use linux_cpp_web_server.Config.{default_config, parse_arg, last_option, parse_arg-last_option}
use linux_cpp_web_server.Sql.{ℤ, pos, negsuc}
use linux_cpp_web_server.MainReactor.{WebServer, Event, connections, signals, unexpected, on_events}
use linux_cpp_web_server.MainReactor.Shares.{Sent, inbox, arrivals, accepted}
use linux_cpp_web_server.Tools.Descriptors.{is_negative, is_no_fd}
use linux_cpp_web_server.Server.{Server, Machine}
use linux_cpp_web_server.Server.Main.{Sockets, start_server}
use linux_cpp_web_server.Server.Startup.{start_server-on_events}
use linux_cpp_web_server.Server.Main.{event_listen, listening}
use linux_cpp_web_server.ThreadPool.{positive}
use linux_cpp_web_server.ThreadPool
use linux_cpp_web_server.Sql
use linux_cpp_web_server.Config.{set_option}
use linux_cpp_web_server.Sql.{connect_all, empty_pool, increment}
use linux_cpp_web_server.Server.{
  asked_for, connections_from, empty_pipes, init, new_server, ready, sub_reactors,
}

abbrev two_options : List (ℕ × Bytes)
two_options = (b'p', codes "80") ∷ (b't', codes "2") ∷ []

-- Every text is the number 2.
abbrev two : Bytes → ℤ
two text = pos 2

parse_arg-last_option_example : parse_arg two two_options default_config ≡ record {
  port = last_option two b'p' default_config.port two_options;
  sql_num = last_option two b's' default_config.sql_num two_options;
  thread_num = last_option two b't' default_config.thread_num two_options;
  close_log = last_option two b'c' default_config.close_log two_options;
}
parse_arg-last_option_example = parse_arg-last_option two two_options default_config

abbrev machine : Machine
machine = record { connects = λ i. some i; getcwd = some (codes "/srv"); hardware_concurrency = 2 }

abbrev sockets : Sockets
sockets = record {
  socket = pos 3;
  bind = pos 0;
  listen = pos 0;
  epoll_create = pos 4;
  socketpair = pos 0;
  pipe_read = pos 5;
  pipe_write = pos 6;
}

abbrev started_server : Server ℕ
started_server = record {
  port = pos 2;
  close_log = pos 0;
  root = some (codes "/srv/root");
  epollfd = pos 4;
  listenfd = pos 3;
  pipe_read = pos 5;
  pipe_write = pos 6;
  timeout_sec = 3;
  pool = some (record { max_requests = 10000; stop = false; workqueue = [] });
  context = record {
    db_pool = some (record {
      max_conn = pos 8;
      cur_conn = pos 0;
      free_conn = pos 8;
      conn_list = 0 ∷ 1 ∷ 2 ∷ 3 ∷ 4 ∷ 5 ∷ 6 ∷ 7 ∷ [];
    });
    doc_root = codes "/srv/root";
    sessions = [];
    db = 0;
  };
  loop = record {
    stop_server = false;
    sub_reactor_num = 2;
    round_robin_counter = 0;
    pipes = [] ∷ [] ∷ [];
    alarms = 1;
    closed = [];
  };
  watched = pos 3 ∷ pos 5 ∷ [];
  handled = (13, false, true) ∷ (2, true, false) ∷ (14, true, false) ∷ (15, true, false) ∷ [];
  closed = [];
}

started_server-start_server :
    start_server (parse_arg two two_options default_config) machine sockets 0 ≡ some started_server
unfolding start_server init Sql.init connect_all ThreadPool.init connections_from asked_for
    parse_arg set_option default_config positive event_listen is_negative is_no_fd listening ready
    increment empty_pool new_server sub_reactors empty_pipes
started_server-start_server = refl

abbrev clients : List Event
clients = connections (some 7 ∷ some 8 ∷ some 9 ∷ none ∷ []) ∷ signals (14 ∷ []) ∷ []

start_server-on_events_example :
    (v : WebServer) × (on_events clients started_server.loop ≡ some v)
    × Sent started_server.loop.sub_reactor_num 1
        (arrivals clients)
        (inbox started_server.loop.sub_reactor_num 1 0 clients)
        v
unfolding arrivals accepted
start_server-on_events_example =
    start_server-on_events (parse_arg two two_options default_config) machine sockets 0
      started_server clients 1 started_server-start_server (omega arith) (omega arith)

-- The pipe of signals hangs up, the loop closes it, and then `epoll_wait` fails.
abbrev last_rounds : List (Option (List Event))
last_rounds = some (unexpected 5 true ∷ clients) ∷ none ∷ []
