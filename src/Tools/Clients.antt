-- ===== src/Tools/Clients.antt =====
-- `client_data`, and the functions of src/Tools.cpp that keep its timer. `timer` is the pointer;
-- `fresh` is the address that `new util_timer` returns, and `now` what `time` returns.
use linux_cpp_web_server.Common.{ℕ, ◌+◌, Bool, true, false, Option, none, some, if◌then◌else◌}
use linux_cpp_web_server.Timer.{TimerManager, add_timer, adjust_timer, del_timer}

pub record ClientData : Type 0 where
  pub sockfd : Option ℕ
  pub timer : Option ℕ
  pub timer_deleted : Bool

unfoldable pub no_client : ClientData
no_client = record { sockfd = none; timer = none; timer_deleted = false }

-- `cd->timer && !cd->timer_deleted`
unfoldable pub live_timer : ClientData → Option ℕ
live_timer cd = if cd.timer_deleted then none else cd.timer

unfoldable pub init_client_timer : ℕ → ℕ → ℕ → ℕ → TimerManager → TimerManager × ClientData
init_client_timer fresh now sockfd timeout_sec tm = (
  add_timer fresh (now + timeout_sec) tm,
  record { sockfd = some sockfd; timer = some fresh; timer_deleted = false },
)

unfoldable pub adjust_client_timer : ℕ → ℕ → ClientData → TimerManager → TimerManager
unfolding live_timer
adjust_client_timer now timeout_sec cd tm = elim (live_timer cd) [
  | none ↦ tm
  | some timer ↦ adjust_timer timer (now + timeout_sec) tm
]

unfoldable pub del_client_timer : ClientData → TimerManager → TimerManager × ClientData
unfolding live_timer
del_client_timer cd tm = elim (live_timer cd) [
  | none ↦ (tm, cd)
  | some timer ↦ (del_timer timer tm, record cd { timer_deleted = true; timer = none })
]
