-- ===== src/ThreadPool/Tests.antt =====
-- Two threads and a queue for one task.
use linux_cpp_web_server.Common.{ℕ, ◌≤◌, ◌≡◌, refl, true, false, some, [], ◌∷◌}
use linux_cpp_web_server.Sql.{pos}
use linux_cpp_web_server.ThreadPool.{ThreadPool, init, append, shut_down, next_round}
use linux_cpp_web_server.ThreadPool.Steps.{
  Threads, started, Run, start, step, accept, take, leave, finish, Invariant,
}
use linux_cpp_web_server.ThreadPool.Drain.{
  WorkerRun, no_step, one_more, work_left, NoStep, Drained, init-Run-Invariant, shut_down-Drained,
}
use linux_cpp_web_server.ThreadPool.{call, positive}

abbrev two_threads : ThreadPool ℕ
two_threads = record { max_requests = 1; stop = false; workqueue = [] }

abbrev one_queued : ThreadPool ℕ
one_queued = record { max_requests = 1; stop = false; workqueue = some 7 ∷ [] }

abbrev accepted_one : Threads ℕ
accepted_one = record {
  pool = one_queued;
  idle = 2;
  busy = [];
  gone = 0;
  accepted = some 7 ∷ [];
  taken = [];
  called = [];
}

two_threads-init : init (pos 2) (pos 1) ≡ some (2, two_threads)
unfolding init positive
two_threads-init = refl

accepted_one-Run : Run (started 2 two_threads) accepted_one
unfolding append started
accepted_one-Run =
    step (started 2 two_threads) accepted_one start
      (accept (started 2 two_threads) (some 7) one_queued refl)

init-Run-Invariant_example : Invariant 2 1 accepted_one
init-Run-Invariant_example =
    init-Run-Invariant (pos 2) (pos 1) 2 two_threads accepted_one two_threads-init accepted_one-Run

abbrev stopped_one : Threads ℕ
stopped_one = record accepted_one { pool = record one_queued { stop = true } }

abbrev taken_one : Threads ℕ
taken_one = record stopped_one {
  pool = record two_threads { stop = true };
  idle = 1;
  busy = some 7 ∷ [];
  taken = some 7 ∷ [];
}

abbrev called_one : Threads ℕ
called_one = record taken_one { idle = 2; busy = []; called = 7 ∷ [] }

abbrev one_gone : Threads ℕ
one_gone = record called_one { idle = 1; gone = 1 }

abbrev both_gone : Threads ℕ
both_gone = record called_one { idle = 0; gone = 2 }

both_gone-WorkerRun : WorkerRun stopped_one 4 both_gone
unfolding next_round call
both_gone-WorkerRun =
    one_more 3 one_gone both_gone
      (one_more 2 called_one one_gone
        (one_more 1 taken_one called_one
          (one_more 0 stopped_one taken_one no_step
            (take stopped_one 1 (some 7) (record two_threads { stop = true }) refl refl))
          (finish taken_one [] [] (some 7) refl))
        (leave called_one 1 refl refl))
      (leave one_gone 0 refl refl)

shut_down-Drained_example :
    (4 ≤ work_left accepted_one) × (NoStep both_gone → Drained 2 (some 7 ∷ []) both_gone)
unfolding shut_down
shut_down-Drained_example =
    shut_down-Drained (pos 2) (pos 1) 2 two_threads accepted_one both_gone 4 two_threads-init
      accepted_one-Run refl both_gone-WorkerRun
