-- ===== src/Reactor/Tests.antt =====
-- A reactor whose client of descriptor 5 points to a timer that a tick has deleted, and whose next timer is
-- made at the same address.
use linux_cpp_web_server.Common.{ℕ, ◌≡◌, refl, true, false, some, []}
use linux_cpp_web_server.Common.Maps
use linux_cpp_web_server.Common.Maps.{nat_key}
use linux_cpp_web_server.Timer
use linux_cpp_web_server.ThreadPool.{ThreadPool}
use linux_cpp_web_server.Tools.Clients.{live_timer}
use linux_cpp_web_server.WebSocket.Server.{WebSocketServer, is_websocket_conn}
use linux_cpp_web_server.Reactor.{SubReactor, Job, client_of, init, close_connection}
use linux_cpp_web_server.Reactor.Events.{open_connection, call_back, call_back_all, on_tick}
use linux_cpp_web_server.Reactor.Reuse.{Left, close_connection-open_connection}
use linux_cpp_web_server.Reactor.{add_task}
use linux_cpp_web_server.Reactor.Events.{on_timeout}
use linux_cpp_web_server.Tools.Clients.{init_client_timer}

abbrev chat : WebSocketServer
chat = record {
  conns = [];
  rooms = [];
  users = [];
  fd_callbacks = [];
  sessions = [];
  triggered = [];
}

abbrev workers : ThreadPool Job
workers = record { max_requests = 10; stop = false; workqueue = [] }

-- Every `new` answers the address 9: what was there has been freed.
abbrev always_nine : ℕ → ℕ
always_nine n = 9

-- The connection 5 is accepted at the time 100, and its timer expires.
abbrev late : SubReactor
late = on_tick 200 (open_connection 100 5 (init 15 1 always_nine chat workers))

late-client : live_timer (client_of 5 late) ≡ some 9
unfolding on_tick open_connection init live_timer client_of Maps.get call_back_all Timer.expired
    init_client_timer Timer.add_timer Timer.insert Timer.init call_back Maps.put on_timeout add_task
late-client = refl

late-http : is_websocket_conn 5 late.server ≡ false
unfolding on_tick open_connection init is_websocket_conn Maps.has call_back_all Timer.expired
    init_client_timer Timer.add_timer Timer.insert Timer.init call_back Maps.put on_timeout
    client_of add_task
late-http = refl

close_connection-open_connection_example :
    Left 6 (late.address late.next) 215 true (close_connection 5 (open_connection 200 6 late))
unfolding on_tick open_connection init call_back_all Timer.expired init_client_timer Timer.add_timer
    Timer.insert Timer.init call_back Maps.get Maps.put on_timeout client_of add_task
close_connection-open_connection_example =
    close_connection-open_connection 200 5 6 9 late refl late-client late-http
