-- ===== src/Server/Startup.antt =====
-- How main.cpp starts the server of src/webserver/WebServer.cpp, and what its loop then sends.
use linux_cpp_web_server.Common.{
  ℕ, zero, suc, ◌&&◌, ltb, ◌+◌, ◌^◌, ◌<◌, ◌≡◌, ◌≢◌, refl, ap, sym, ◌∙◌, false, ◌||◌, some, List, [],
  length, get_elem?, inl, inr, Bool-cases, Option-cases, arith,
}
use mathlib.Core.Path.{subst}
use linux_cpp_web_server.Common.Bytes.{Bytes}
use linux_cpp_web_server.Config.{Config}
use linux_cpp_web_server.MainReactor.{WebServer, Event, on_events}
use linux_cpp_web_server.MainReactor.Shares.{Sent, inbox, arrivals}
use linux_cpp_web_server.MainReactor.Pipes.{on_events-Sent}
use linux_cpp_web_server.Reactor.{Job}
use linux_cpp_web_server.Sql.{ℤ, pos, destroy_pool, SqlConnectionPool}
use linux_cpp_web_server.Sql
use linux_cpp_web_server.ThreadPool.{ThreadPool, shut_down}
use linux_cpp_web_server.ThreadPool
use linux_cpp_web_server.Tools.Descriptors.{is_negative, is_no_fd}
use linux_cpp_web_server.Server.{
  Server, Machine, new_server, init, ready, sub_reactors, empty_pipes, asked_for, connections_from,
}
use linux_cpp_web_server.Server.Main.{Sockets, listening, event_listen, start_server}

pub sub_reactors-some : (hardware : ℕ) → sub_reactors hardware ≢ 0
unfolding sub_reactors
sub_reactors-some hardware = elim (Bool-cases (ltb 0 hardware && ltb hardware (2 ^ 31))) [
  | inl fits ↦ rw (sub_reactors, fits) (ground arith)
  | inr other ↦ rw (sub_reactors, other) (λ e. omega arith)
]

length-empty_pipes : (n : ℕ) → length (empty_pipes n) ≡ n
unfolding empty_pipes
length-empty_pipes zero = refl
length-empty_pipes (suc n) = ap suc (length-empty_pipes n)

get_elem?-empty_pipes : (n i : ℕ) → i < n → get_elem? (empty_pipes n) i ≡ some []
unfolding empty_pipes
get_elem?-empty_pipes zero i h = absurd (omega arith)
get_elem?-empty_pipes (suc n) zero h = refl
get_elem?-empty_pipes (suc n) (suc i) h = get_elem?-empty_pipes n i (omega arith)

module _ {D : Type 0} where
  init-ready :
      (machine : Machine) (port sql_num thread_num close_log : ℤ) (timeout_sec : ℕ) (s t : Server D)
      → init machine port sql_num thread_num close_log timeout_sec s ≡ some t
      → (sql : SqlConnectionPool) × (workers : ThreadPool Job) × (cwd : Bytes) × (t
          ≡ ready machine port close_log timeout_sec sql workers cwd s)
  unfolding init
  init-ready machine port sql_num thread_num close_log timeout_sec s t e =
      elim (Option-cases
        (Sql.init (connections_from machine.connects 0 (asked_for sql_num)) Sql.empty_pool)) [
          | inl no_sql ↦ absurd (cc (rw (init, no_sql) at e))
          | inr (sql, has_sql) ↦
              elim (Option-cases (ThreadPool.init {A = Job} thread_num (pos 10000))) [
                | inl no_pool ↦ absurd (cc (rw (init, has_sql, no_pool) at e))
                | inr ((threads, workers), has_pool) ↦ elim (Option-cases machine.getcwd) [
                  | inl no_cwd ↦ absurd (cc (rw (init, has_sql, has_pool, no_cwd) at e))
                  | inr (cwd, has_cwd) ↦
                      (sql, workers, cwd, cc (rw (init, has_sql, has_pool, has_cwd) at e))
                ]
              ]
        ]

  event_listen-listening :
      (k : Sockets) (s t : Server D)
      → event_listen k s ≡ some t
      → (is_negative k.socket
            || is_negative k.bind
            || is_negative k.listen
            || is_no_fd k.epoll_create
            || is_no_fd k.socketpair
          ≡ false)
        × (t ≡ listening k s)
  unfolding event_listen
  event_listen-listening k s t e =
      elim (Bool-cases (
        is_negative k.socket
        || is_negative k.bind
        || is_negative k.listen
        || is_no_fd k.epoll_create
        || is_no_fd k.socketpair)) [
          | inl failed ↦ absurd (cc (rw (event_listen, failed) at e))
          | inr fine ↦ (fine, cc (rw (event_listen, fine) at e))
        ]

  -- The state in which the loop begins.
  unfoldable pub first_state :
      Config → Machine → Sockets → D → SqlConnectionPool → ThreadPool Job → Bytes → Server D
  first_state c machine k db sql workers cwd =
      listening k (ready machine c.port c.close_log 3 sql workers cwd (new_server db))

  pub start_server-first_state :
      (c : Config) (machine : Machine) (k : Sockets) (db : D) (t : Server D)
      → start_server c machine k db ≡ some t
      → (sql : SqlConnectionPool) × (workers : ThreadPool Job) × (cwd : Bytes) × (t
          ≡ first_state c machine k db sql workers cwd)
        × (is_negative k.socket
              || is_negative k.bind
              || is_negative k.listen
              || is_no_fd k.epoll_create
              || is_no_fd k.socketpair
            ≡ false)
  unfolding start_server first_state
  start_server-first_state c machine k db t e =
      elim (Option-cases
        (init machine c.port c.sql_num c.thread_num c.close_log 3 (new_server db))) [
          | inl no_start ↦ absurd (cc (rw (start_server, no_start) at e))
          | inr (s, begun) ↦
              let (sql, workers, cwd, at_first) =
                init-ready machine c.port c.sql_num c.thread_num c.close_log 3 (new_server db) s
                  begun in
              let (fine, listens) = event_listen-listening k s t (rw (start_server, begun) at e) in
              (sql, workers, cwd, listens ∙ ap (listening k) at_first, fine)
        ]

  pub first_state-Sent :
      (c : Config) (machine : Machine) (k : Sockets) (db : D) (sql : SqlConnectionPool)
      (workers : ThreadPool Job) (cwd : Bytes) (i : ℕ)
      → i < sub_reactors machine.hardware_concurrency
      → Sent
          (sub_reactors machine.hardware_concurrency)
          i
          0
          []
          (first_state c machine k db sql workers cwd).loop
  unfolding first_state listening ready new_server
  first_state-Sent c machine k db sql workers cwd i below =
      let n = sub_reactors machine.hardware_concurrency in
      record {
        number = refl;
        reactors = length-empty_pipes n;
        counter = refl;
        inbox_of = get_elem?-empty_pipes n i below;
      }

  -- A server that has started has at least one sub reactor, and while fewer than 2 ^ 31 connections come
  -- in, no event of the loop fails, and each sub reactor `i` of the `n` is sent, in order and nothing
  -- else, the connections whose number leaves `i` modulo `n`, and a message for each signal that stops the
  -- server or for a tick.
  pub start_server-on_events :
      (c : Config) (machine : Machine) (k : Sockets) (db : D) (t : Server D) (es : List Event)
      (i : ℕ)
      → start_server c machine k db ≡ some t
      → arrivals es < 2 ^ 31
      → i < t.loop.sub_reactor_num
      → (v : WebServer) × (on_events es t.loop ≡ some v)
        × Sent t.loop.sub_reactor_num i (arrivals es) (inbox t.loop.sub_reactor_num i 0 es) v
  unfolding first_state listening ready
  start_server-on_events c machine k db t es i e few below =
      let (sql, workers, cwd, same, fine) = start_server-first_state c machine k db t e in
      let n = sub_reactors machine.hardware_concurrency in
      let num : t.loop.sub_reactor_num ≡ n = ap (λ s. s.loop.sub_reactor_num) same in
      let at_start : Sent n i 0 [] t.loop =
        subst (λ s. Sent n i 0 [] s.loop) (sym same)
          (first_state-Sent c machine k db sql workers cwd i (rw num at below)) in
      let (v, done, hv) =
        on_events-Sent n i (sub_reactors-some machine.hardware_concurrency) es 0 [] t.loop
          (omega arith) at_start in
      let z : 0 + arrivals es ≡ arrivals es = omega arith in
      (
        v,
        done,
        subst (λ m. Sent m i (arrivals es) (inbox m i 0 es) v) (sym num)
            (subst (λ m. Sent n i m (inbox n i 0 es) v) z hv),
      )
