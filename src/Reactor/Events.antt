-- ===== src/Reactor/Events.antt =====
-- The events of the loop of src/webserver/SubReactor.cpp: messages of the main reactor, wakeups, and
-- descriptors that are ready. `now` is what `time` returns.
use linux_cpp_web_server.Common.{
  ℕ, zero, suc, Bool, true, false, ◌&&◌, Option, none, some, List, [], ◌∷◌, if◌then◌else◌, leb,
  take,
}
use linux_cpp_web_server.Common.Maps
use linux_cpp_web_server.Common.Maps.{nat_key}
use linux_cpp_web_server.Sql.{ℤ, pos, negsuc}
use linux_cpp_web_server.Tools.{close}
use linux_cpp_web_server.Tools.Clients.{init_client_timer, adjust_client_timer}
use linux_cpp_web_server.Timer
use linux_cpp_web_server.Timer.{expired}
use linux_cpp_web_server.ThreadPool.{append}
use linux_cpp_web_server.WebSocket.Server.{is_websocket_conn}
use linux_cpp_web_server.MainReactor.{LoopEnd, stopped, waiting}
use linux_cpp_web_server.Reactor.{
  SubReactor, JobKind, read_http, write_http, read_websocket, write_websocket, act, close_late,
  nothing, max_fd, addfd, client_of, add_task, handle_wakeup,
}

-- The connection object and then the timer are made. The client that had the same descriptor is
-- overwritten, with the pointer to its timer.
unfoldable pub open_connection : ℕ → ℕ → SubReactor → SubReactor
open_connection now fd r =
    let timer = r.address (suc r.next) in
    record r {
      connections = Maps.put fd (r.address r.next) r.connections;
      timer_manager = (init_client_timer timer now fd r.timeout_sec r.timer_manager).0;
      client_data =
          Maps.put fd (init_client_timer timer now fd r.timeout_sec r.timer_manager).1
            r.client_data;
      user_data = Maps.put timer fd r.user_data;
      next = suc (suc r.next);
    }

unfoldable pub handle_new_connection : ℕ → ℕ → SubReactor → Option SubReactor
handle_new_connection now connfd r =
    if leb connfd max_fd then some (open_connection now connfd (addfd connfd r)) else none

-- `timeout_cb`, on the client whose timer it is.
unfoldable pub on_timeout : Option ℕ → Bool → SubReactor → SubReactor
on_timeout none deleted r = r
on_timeout (some sockfd) deleted r = if deleted then r else add_task (close_late sockfd) r

unfoldable pub call_back : ℕ → SubReactor → SubReactor
call_back timer r = elim (Maps.get timer r.user_data) [
  | none ↦ r
  | some fd ↦ on_timeout (client_of fd r).sockfd (client_of fd r).timer_deleted r
]

unfoldable pub call_back_all : List ℕ → SubReactor → SubReactor
call_back_all [] r = r
call_back_all (t ∷ ts) r = call_back_all ts (call_back t r)

-- `m_timer_manager.tick()`, each timer having a callback.
unfoldable pub on_tick : ℕ → SubReactor → SubReactor
on_tick now r =
    call_back_all (expired now r.timer_manager.timers)
      (record r { timer_manager = Timer.tick (λ t. true) now r.timer_manager })

-- The messages that one `read` returns.
unfoldable pub on_messages : ℕ → List ℤ → SubReactor → Option SubReactor
on_messages now [] r = some r
on_messages now (pos connfd ∷ ms) r = elim (handle_new_connection now connfd r) [
  | none ↦ none
  | some s ↦ on_messages now ms s
]
on_messages now (negsuc zero ∷ ms) r = some (record r { stop_server = true })
on_messages now (negsuc (suc zero) ∷ ms) r = on_messages now ms (on_tick now r)
on_messages now (negsuc (suc (suc n)) ∷ ms) r = on_messages now ms r

-- `m_pool->append`, whose answer is not looked at.
unfoldable pub submit : JobKind → ℕ → ℕ → SubReactor → SubReactor
submit kind conn fd r = record r {
  pool = (append (some (record { kind = kind; conn = conn; sockfd = fd })) r.pool).1;
}

unfoldable pub submit_websocket : JobKind → ℕ → SubReactor → SubReactor
submit_websocket kind fd r = elim (Maps.get fd r.ws_connections) [
  | none ↦ r
  | some conn ↦ submit kind conn fd r
]

unfoldable pub submit_http : JobKind → ℕ → ℕ → SubReactor → SubReactor
submit_http kind now fd r = elim (Maps.get fd r.connections) [
  | none ↦ r
  | some conn ↦ submit kind conn fd (record r {
    timer_manager = adjust_client_timer now r.timeout_sec (client_of fd r) r.timer_manager;
  })
]

unfoldable pub dispatch : JobKind → JobKind → ℕ → ℕ → SubReactor → Option SubReactor
dispatch http websocket now fd r =
    if leb fd max_fd
    then some (
        if is_websocket_conn fd r.server
        then submit_websocket websocket fd r
        else submit_http http now fd r)
    else none

-- The events of a descriptor: EPOLLRDHUP, EPOLLHUP or EPOLLERR; EPOLLIN; EPOLLOUT.
pub record Flags : Type 0 where
  pub broken : Bool
  pub readable : Bool
  pub writable : Bool

unfoldable pub on_ready : ℕ → ℕ → Flags → SubReactor → Option SubReactor
on_ready now fd flags r =
    if flags.broken
    then some (add_task (act fd close) r)
    else if flags.readable
    then dispatch read_http read_websocket now fd r
    else if flags.writable
    then dispatch write_http write_websocket now fd r
    else some r

pub data Event : Type 0 where
  messages : ℕ → List ℤ → Event
  wakeup : Event
  ready : ℕ → ℕ → Flags → Event

-- One-shot: the kernel reports a descriptor once.
unfoldable pub disarm : ℕ → SubReactor → SubReactor
disarm fd r =
    if Maps.has fd r.interest then record r { interest = Maps.put fd nothing r.interest } else r

unfoldable pub on_event : Event → SubReactor → Option SubReactor
on_event (messages now ms) r = on_messages now (take 8 ms) r
on_event wakeup r = handle_wakeup r
on_event (ready now fd flags) r = on_ready now fd flags (disarm fd r)

unfoldable pub is_message : Event → Bool
is_message (messages now ms) = true
is_message _ = false

-- The events of one `epoll_wait`: a message that stops the server ends them.
unfoldable pub on_events : List Event → SubReactor → Option SubReactor
on_events [] r = some r
on_events (e ∷ es) r = elim (on_event e r) [
  | none ↦ none
  | some s ↦ elim (is_message e && s.stop_server) [ true ↦ some s | false ↦ on_events es s ]
]

-- The answers of `epoll_wait`: `none` is a failure; an interrupted call has no events. At the end of the
-- answers the loop has stopped, by its test, or waits for the next.
unfoldable pub event_loop : List (Option (List Event)) → SubReactor → Option (LoopEnd × SubReactor)
event_loop [] r = some (if r.stop_server then stopped else waiting, r)
event_loop (none ∷ rest) r = some (stopped, r)
event_loop (some es ∷ rest) r = elim r.stop_server [
  | true ↦ some (stopped, r)
  | false ↦ elim (on_events es r) [ none ↦ none | some s ↦ event_loop rest s ]
]
