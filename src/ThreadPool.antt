-- ===== src/ThreadPool.antt =====
-- src/ThreadPool.cpp: the queue of tasks that the worker threads share. A task is a `std::function`,
-- `none` when it is empty; what it does when it is called is left to `A`. Each critical section is one
-- operation. The thread that joins the workers only waits for them.
pub mod Steps
pub mod Invariants
pub mod Drain
pub mod Tests
use linux_cpp_web_server.Common.{
  ℕ, zero, suc, Bool, true, false, Option, none, some, List, [], ◌∷◌, ◌++◌, if◌then◌else◌, length,
  leb,
}
use linux_cpp_web_server.Sql.{ℤ, pos, negsuc}

pub record ThreadPool (A : Type 0) : Type 0 where
  pub max_requests : ℕ
  pub stop : Bool
  pub workqueue : List (Option A)

-- An `int` above 0.
unfoldable pub positive : ℤ → Option ℕ
positive (pos (suc n)) = some (suc n)
positive (pos zero) = none
positive (negsuc n) = none

module _ {A : Type 0} where
  -- The number of threads that are started, and the pool; `none` is an exception.
  unfoldable pub init : ℤ → ℤ → Option (ℕ × ThreadPool A)
  init thread_number max_requests = elim (positive thread_number) [
    | none ↦ none
    | some threads ↦ elim (positive max_requests) [
      | none ↦ none
      | some most ↦ some (threads, record { max_requests = most; stop = false; workqueue = [] })
    ]
  ]

  unfoldable pub append : Option A → ThreadPool A → Bool × ThreadPool A
  append task p =
      if leb p.max_requests (length p.workqueue)
      then (false, p)
      else (true, record p { workqueue = p.workqueue ++ task ∷ [] })

-- What a round of `run` finds under the lock: it waits on, leaves the loop, or takes a task.
pub data Round (A : Type 0) : Type 0 where
  waits : Round A
  leaves : Round A
  takes : Option A → ThreadPool A → Round A

module _ {A : Type 0} where
  unfoldable pub next_round : ThreadPool A → Round A
  next_round p = elim p.workqueue [
    | [] ↦ (if p.stop then leaves else waits)
    | task ∷ rest ↦ takes task (record p { workqueue = rest })
  ]

  -- `if (task) task();`: the calls that a task makes.
  unfoldable pub call : Option A → List A
  call none = []
  call (some f) = f ∷ []

  -- The part of the destructor that comes before it joins the threads.
  unfoldable pub shut_down : ThreadPool A → ThreadPool A
  shut_down p = record p { stop = true }
