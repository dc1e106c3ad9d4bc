-- ===== src/MainReactor.antt =====
-- src/webserver/WebServer.cpp: the loop of the main reactor, which hands out new connections and passes
-- signals on. `pipes` holds what was written to the pipe of each sub reactor, in order; a write finds
-- room. `none` is the overflow of the `int` that counts connections, or an index behind the reactors.
pub mod Pipes
pub mod Signals
pub mod Tests
pub mod Shares
pub mod Ends
use linux_cpp_web_server.Common.{
  ℕ, zero, suc, ◌+◌, ◌%◌, ◌^◌, Bool, true, false, ◌&&◌, ◌||◌, Option, none, some, List, [], ◌∷◌,
  ◌++◌, ◌==◌, if◌then◌else◌, ltb, map, length, set, get_elem?,
}
use linux_cpp_web_server.Sql.{ℤ, pos, negsuc}

pub record WebServer : Type 0 where
  pub stop_server : Bool
  pub sub_reactor_num : ℕ
  pub round_robin_counter : ℕ
  pub pipes : List (List ℤ)
  pub alarms : ℕ
  pub closed : List ℕ

-- The message that stops a sub reactor, and the one for a tick.
abbrev pub stop_message : ℤ
stop_message = negsuc 0

abbrev pub tick_message : ℤ
tick_message = negsuc 1

-- `write` to the pipe of one sub reactor; `m_sub_reactors[i]`.
unfoldable pub send_to : ℕ → ℤ → List (List ℤ) → Option (List (List ℤ))
send_to i msg pipes = elim (get_elem? pipes i) [
  | none ↦ none
  | some sent ↦ some (set pipes i (sent ++ msg ∷ []))
]

unfoldable pub send_all : ℤ → List (List ℤ) → List (List ℤ)
send_all msg pipes = map (λ sent. sent ++ msg ∷ []) pipes

unfoldable pub counted : List (List ℤ) → WebServer → WebServer
counted pipes w = record w { pipes = pipes; round_robin_counter = suc w.round_robin_counter }

-- A connection that was accepted. A remainder by 0 is 0 here, and then there is no reactor 0.
unfoldable pub dispatch : ℕ → WebServer → Option WebServer
dispatch connfd w =
    if ltb (suc w.round_robin_counter) (2 ^ 31)
    then elim (send_to (w.round_robin_counter % w.sub_reactor_num) (pos connfd) w.pipes) [
      | none ↦ none
      | some pipes ↦ some (counted pipes w)
    ]
    else none

-- The loop over `accept`: `none` is a failure, which ends it.
unfoldable pub accept_all : List (Option ℕ) → WebServer → Option WebServer
accept_all [] w = some w
accept_all (none ∷ rest) w = some w
accept_all (some connfd ∷ rest) w = elim (dispatch connfd w) [
  | none ↦ none
  | some v ↦ accept_all rest v
]

-- SIGINT, SIGALRM and SIGTERM.
abbrev pub sigint : ℕ
sigint = 2

abbrev pub sigalrm : ℕ
sigalrm = 14

abbrev pub sigterm : ℕ
sigterm = 15

unfoldable pub on_signal : ℕ → WebServer → WebServer
on_signal sig w =
    if sig == sigterm || sig == sigint
    then record w { stop_server = true; pipes = send_all stop_message w.pipes }
    else if sig == sigalrm
    then record w { pipes = send_all tick_message w.pipes; alarms = suc w.alarms }
    else w

unfoldable pub on_signals : List ℕ → WebServer → WebServer
on_signals [] w = w
on_signals (sig ∷ sigs) w = on_signals sigs (on_signal sig w)

-- The events of one `epoll_wait`: the listening socket, the pipe of signals, or something else.
pub data Event : Type 0 where
  connections : List (Option ℕ) → Event
  signals : List ℕ → Event
  unexpected : ℕ → Bool → Event

unfoldable pub on_event : Event → WebServer → Option WebServer
on_event (connections answers) w = accept_all answers w
on_event (signals sigs) w = some (on_signals sigs w)
on_event (unexpected fd true) w = some (record w { closed = w.closed ++ fd ∷ [] })
on_event (unexpected fd false) w = some w

unfoldable pub on_events : List Event → WebServer → Option WebServer
on_events [] w = some w
on_events (e ∷ es) w = elim (on_event e w) [ none ↦ none | some v ↦ on_events es v ]

-- How far the loop came with the answers that `epoll_wait` gave: `stopped`, by its test or by `break`, or
-- `waiting` for the next answer.
pub data LoopEnd : Type 0 where
  stopped waiting : LoopEnd

-- The answers of `epoll_wait`: `none` is a failure; an interrupted call has no events.
unfoldable pub event_loop : List (Option (List Event)) → WebServer → Option (LoopEnd × WebServer)
event_loop [] w = some (if w.stop_server then stopped else waiting, w)
event_loop (none ∷ rest) w = some (stopped, w)
event_loop (some es ∷ rest) w = elim w.stop_server [
  | true ↦ some (stopped, w)
  | false ↦ elim (on_events es w) [ none ↦ none | some v ↦ event_loop rest v ]
]
