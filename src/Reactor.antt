-- ===== src/Reactor.antt =====
-- src/webserver/SubReactor.cpp: the thread that owns connections and waits for their events. A pointer
-- is a number, a null pointer is no entry of the map. `next` counts the calls of `new` and of
-- `make_shared`, and `address` is what each of them answers: any function, since an address that was freed
-- may come again. `server` is the WebSocket server, which all sub reactors share, as it is when this one
-- works on it; between two events the others may have changed it. epoll and the sockets are the kernel:
-- `interest` is what epoll was last told of a descriptor, `closed` the descriptors that were closed. The
-- closures that are queued are values of `Task`, those for the workers of `Job`. An access to a table
-- behind its end is the answer `none`. Log lines are left out, and so is the destructor of a WebSocket
-- connection, which closes the descriptor as well unless the connection had closed.
pub mod Events
pub mod Ending
pub mod Reuse
pub mod Tests
use linux_cpp_web_server.Common.{
  ℕ, suc, ◌+◌, Bool, true, false, Option, none, some, List, [], ◌∷◌, ◌++◌, if◌then◌else◌, leb,
}
use linux_cpp_web_server.Common.Maps
use linux_cpp_web_server.Common.Maps.{nat_key}
use linux_cpp_web_server.Tools.{Action, read, write, wait, close, upgrade}
use linux_cpp_web_server.Tools.Clients.{ClientData, no_client, del_client_timer}
use linux_cpp_web_server.Timer
use linux_cpp_web_server.Timer.{TimerManager}
use linux_cpp_web_server.ThreadPool.{ThreadPool}
use linux_cpp_web_server.WebSocket.Conn
use linux_cpp_web_server.WebSocket.Server.{
  WebSocketServer, register_callback, add_connection, is_websocket_conn, remove_connection,
}

-- What a worker does with a connection: `handle_read` or `handle_write`.
pub data JobKind : Type 0 where
  read_http write_http read_websocket write_websocket : JobKind

pub record Job : Type 0 where
  pub kind : JobKind
  pub conn : ℕ
  pub sockfd : ℕ

-- The closures for `addTask`: `handle_action`, or the same on a timeout.
pub data Task : Type 0 where
  act : ℕ → Action → Task
  close_late : ℕ → Task

-- One-shot: after an event nothing is reported until `modfd`.
pub data Interest : Type 0 where
  input output nothing : Interest

pub record SubReactor : Type 0 where
  pub connections : List (ℕ × ℕ)
  pub ws_connections : List (ℕ × ℕ)
  pub client_data : List (ℕ × ClientData)
  pub user_data : List (ℕ × ℕ)
  pub timer_manager : TimerManager
  pub timeout_sec : ℕ
  pub interest : List (ℕ × Interest)
  pub closed : List ℕ
  pub task_queue : List Task
  pub wakeups : ℕ
  pub stop_server : Bool
  pub next : ℕ
  pub address : ℕ → ℕ
  pub callback : ℕ
  pub server : WebSocketServer
  pub pool : ThreadPool Job

abbrev pub max_fd : ℕ
max_fd = 65536

unfoldable pub addfd : ℕ → SubReactor → SubReactor
addfd fd r =
    if Maps.has fd r.interest then r else record r { interest = Maps.put fd input r.interest }

unfoldable pub modfd : ℕ → Interest → SubReactor → SubReactor
modfd fd ev r =
    if Maps.has fd r.interest then record r { interest = Maps.put fd ev r.interest } else r

unfoldable pub removefd : ℕ → SubReactor → SubReactor
removefd fd r = record r { interest = Maps.remove fd r.interest; closed = fd ∷ r.closed }

unfoldable pub client_of : ℕ → SubReactor → ClientData
client_of fd r = elim (Maps.get fd r.client_data) [ none ↦ no_client | some cd ↦ cd ]

-- `Tools::del_timer(m_timer_manager, &m_client_data[connfd])` and the reset of the HTTP connection.
unfoldable pub drop_http : ℕ → SubReactor → SubReactor
drop_http fd r = record r {
  timer_manager = (del_client_timer (client_of fd r) r.timer_manager).0;
  client_data = Maps.put fd (del_client_timer (client_of fd r) r.timer_manager).1 r.client_data;
  connections = Maps.remove fd r.connections;
}

unfoldable pub drop_websocket : ℕ → SubReactor → SubReactor
drop_websocket fd r = record r {
  server = remove_connection fd r.server;
  ws_connections = Maps.remove fd r.ws_connections;
}

unfoldable pub open_websocket : ℕ → SubReactor → SubReactor
open_websocket fd r = record r {
  ws_connections = Maps.put fd (r.address r.next) r.ws_connections;
  next = suc r.next;
  server = add_connection fd (Conn.init fd) (register_callback fd r.callback r.server);
}

unfoldable pub close_connection : ℕ → SubReactor → SubReactor
close_connection fd r =
    removefd fd (if is_websocket_conn fd r.server then drop_websocket fd r else drop_http fd r)

unfoldable pub upgrade_connection : ℕ → SubReactor → SubReactor
upgrade_connection fd r = modfd fd input (open_websocket fd (drop_http fd r))

unfoldable pub handle_action : ℕ → Action → SubReactor → Option SubReactor
handle_action connfd read r = some (modfd connfd input r)
handle_action connfd wait r = some (modfd connfd input r)
handle_action connfd write r = some (modfd connfd output r)
handle_action connfd close r = if leb connfd max_fd then some (close_connection connfd r) else none
handle_action connfd upgrade r =
    if leb connfd max_fd then some (upgrade_connection connfd r) else none

-- `addTask`: the write to the eventfd adds to its counter.
unfoldable pub add_task : Task → SubReactor → SubReactor
add_task task r = record r { task_queue = r.task_queue ++ task ∷ []; wakeups = suc r.wakeups }

unfoldable pub run_task : Task → SubReactor → Option SubReactor
run_task (act fd action) r = handle_action fd action r
run_task (close_late fd) r =
    if leb fd max_fd
    then (if Maps.has fd r.connections then handle_action fd close r else some r)
    else none

unfoldable pub run_tasks : List Task → SubReactor → Option SubReactor
run_tasks [] r = some r
run_tasks (task ∷ tasks) r = elim (run_task task r) [ none ↦ none | some s ↦ run_tasks tasks s ]

-- The queue is swapped with an empty one before its tasks run.
unfoldable pub handle_wakeup : SubReactor → Option SubReactor
handle_wakeup r = run_tasks r.task_queue (record r { task_queue = []; wakeups = 0 })

-- The constructor and `init`: the tables are empty; the server and the pool are shared.
unfoldable pub init : ℕ → ℕ → (ℕ → ℕ) → WebSocketServer → ThreadPool Job → SubReactor
init timeout_sec callback address server pool = record {
  connections = [];
  ws_connections = [];
  client_data = [];
  user_data = [];
  timer_manager = Timer.init;
  timeout_sec = timeout_sec;
  interest = [];
  closed = [];
  task_queue = [];
  wakeups = 0;
  stop_server = false;
  next = 0;
  address = address;
  callback = callback;
  server = server;
  pool = pool;
}
