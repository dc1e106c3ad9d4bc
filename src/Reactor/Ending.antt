-- ===== src/Reactor/Ending.antt =====
-- The descriptors of a sub reactor, which `SubReactor::init` of src/webserver/SubReactor.cpp makes, and its
-- destructor. The WebSocket server shares the WebSocket connections, and keeps them.
use linux_cpp_web_server.Common.{ℕ, ◌||◌, Option, none, some, List, [], ◌∷◌, if◌then◌else◌}
use linux_cpp_web_server.Sql.{ℤ}
use linux_cpp_web_server.Tools.Clients.{ClientData, del_client_timer}
use linux_cpp_web_server.Tools.Descriptors.{no_fd, is_negative, is_no_fd, close_fd}
use linux_cpp_web_server.Timer.{TimerManager}
use linux_cpp_web_server.Reactor.{SubReactor}

pub record Descriptors : Type 0 where
  pub epollfd : ℤ
  pub pipe_read : ℤ
  pub pipe_write : ℤ
  pub wakeup_fd : ℤ

unfoldable pub no_descriptors : Descriptors
no_descriptors = record {
  epollfd = no_fd;
  pipe_read = no_fd;
  pipe_write = no_fd;
  wakeup_fd = no_fd;
}

-- What the kernel answers to `epoll_create`, `socketpair` and `eventfd`.
pub record KernelAnswers : Type 0 where
  pub socketpair : ℤ
  pub made : Descriptors

-- `none` is an exit.
unfoldable pub open_descriptors : KernelAnswers → Option Descriptors
open_descriptors k =
    if is_no_fd k.made.epollfd || is_no_fd k.socketpair || is_negative k.made.wakeup_fd
    then none
    else some k.made

-- The loop over `m_client_data`.
unfoldable pub destroy_clients :
    List (ℕ × ClientData) → TimerManager → List (ℕ × ClientData) × TimerManager
destroy_clients [] tm = ([], tm)
destroy_clients ((fd, cd) ∷ clients) tm =
    let (tm', cd') = del_client_timer cd tm in
    let (rest, last) = destroy_clients clients tm' in ((fd, cd') ∷ rest, last)

-- The descriptors that were closed, and what is left of the tables.
unfoldable pub destroy_reactor : Descriptors → SubReactor → List ℤ × SubReactor
destroy_reactor d r =
    let (clients, tm) = destroy_clients r.client_data r.timer_manager in
    (
      close_fd d.wakeup_fd (close_fd d.pipe_write (close_fd d.pipe_read (close_fd d.epollfd []))),
      record r { connections = []; ws_connections = []; client_data = clients; timer_manager = tm },
    )
