-- ===== src/ThreadPool/Drain.antt =====
-- The end of the thread pool: the destructor of src/ThreadPool.cpp sets `m_stop` and joins the workers.
use linux_cpp_web_server.Common.{
  ℕ, zero, suc, ◌+◌, ◌*◌, ◌≤◌, ◌≡◌, ◌≢◌, refl, ap, sym, ◌∙◌, Bool, true, false, Option, some, List,
  [], ◌∷◌, ◌++◌, length, append-nil, length-append, arith,
}
use linux_cpp_web_server.Sql.{ℤ, pos, negsuc}
use linux_cpp_web_server.ThreadPool.{ThreadPool, positive, init, next_round, shut_down}
use linux_cpp_web_server.ThreadPool.Steps.{
  count, calls, Threads, started, WorkerStep, take, finish, leave, Step, work, accept, refuse, shut,
  Run, start, step, Invariant, start-Invariant,
}
use linux_cpp_web_server.ThreadPool.Invariants.{
  next_round-takes, next_round-leaves, WorkerStep-Invariant, Run-Invariant, append-accepted,
  append-refused,
}

module _ {A : Type 0} where
  -- What `init` makes: some threads, and an empty queue that is not stopped.
  pub init-empty :
      (thread_number max_requests : ℤ) (threads : ℕ) (p : ThreadPool A)
      → init thread_number max_requests ≡ some (threads, p)
      → (threads ≢ 0) × (p.workqueue ≡ []) × (p.stop ≡ false)
  unfolding init positive
  init-empty (pos zero) m threads p e = absurd (cc)
  init-empty (negsuc n) m threads p e = absurd (cc)
  init-empty (pos (suc n)) (pos zero) threads p e = absurd (cc)
  init-empty (pos (suc n)) (negsuc m) threads p e = absurd (cc)
  init-empty (pos (suc n)) (pos (suc m)) threads p e =
      let made : ThreadPool A = record { max_requests = suc m; stop = false; workqueue = [] } in
      let same : some (suc n, made) ≡ some (threads, p) = e in
      let count_same : suc n ≡ threads = cc same in
      let pool_same : made ≡ p = cc same in
      (
        (λ z. (let zero_suc : suc n ≡ 0 = count_same ∙ z in cc)),
        ap (λ x. x.workqueue) (sym pool_same),
        ap (λ x. x.stop) (sym pool_same),
      )

  -- In every interleaving of calls of `append`, rounds of the workers and the destructor, from a pool
  -- that was made: the queue holds at most the maximal number of tasks; the tasks that were taken and
  -- then those of the queue are the accepted ones in the order of acceptance; each thread is idle, busy
  -- or gone; and what was called, with what the busy threads hold, is what was taken, each call once.
  pub init-Run-Invariant :
      (thread_number max_requests : ℤ) (threads : ℕ) (p : ThreadPool A) (s : Threads A)
      → init thread_number max_requests ≡ some (threads, p)
      → Run (started threads p) s
      → Invariant threads p.max_requests s
  init-Run-Invariant thread_number max_requests threads p s e run =
      let (full, empty, going) = init-empty thread_number max_requests threads p e in
      Run-Invariant threads p.max_requests (started threads p) s run
        (start-Invariant threads p.max_requests p refl empty)

  -- A thread is gone only after the stop.
  GoneStopped : Threads A → Type 0
  GoneStopped s = s.gone ≢ 0 → s.pool.stop ≡ true

  Step-GoneStopped : (s s' : Threads A) → Step s s' → GoneStopped s → GoneStopped s'
  unfolding GoneStopped shut_down
  Step-GoneStopped s _ (work _ _ (take _ others task p idle e)) h =
      λ some_gone. (next_round-takes s.pool p task e).2 ∙ h some_gone
  Step-GoneStopped s _ (work _ _ (finish _ before after task busy)) h = h
  Step-GoneStopped s _ (work _ _ (leave _ others idle e)) h =
      λ some_gone. (next_round-leaves s.pool e).1
  Step-GoneStopped s _ (accept _ task p e) h =
      λ some_gone. ap (λ x. x.stop) ((append-accepted s.pool p task e).0) ∙ h some_gone
  Step-GoneStopped s _ (refuse _ task p e) h =
      λ some_gone. ap (λ x. x.stop) (append-refused s.pool p task e) ∙ h some_gone
  Step-GoneStopped s _ (shut _) h = λ some_gone. refl

  Run-GoneStopped : (s s' : Threads A) → Run s s' → GoneStopped s → GoneStopped s'
  Run-GoneStopped s _ start h = h
  Run-GoneStopped s u (step t _ run last) h = Step-GoneStopped t u last (Run-GoneStopped s t run h)

  -- Rows of steps of the workers alone, with their number.
  pub data WorkerRun (s : Threads A) : ℕ → Threads A → Type 0 where
    no_step : WorkerRun s 0 s
    one_more : (n : ℕ) (t u : Threads A) → WorkerRun s n t → WorkerStep t u → WorkerRun s (suc n) u

  -- What is left to do.
  abbrev pub work_left : Threads A → ℕ
  work_left s = 3 * length s.pool.workqueue + 2 * length s.busy + s.idle

  -- A stopped pool to which nothing is added.
  record Stopping (s0 s : Threads A) : Type 0 where
    stopped : s.pool.stop ≡ true
    drained : s.gone ≢ 0 → s.pool.workqueue ≡ []
    no_more : s.accepted ≡ s0.accepted

  WorkerStep-Stopping :
      (s0 s s' : Threads A)
      → WorkerStep s s'
      → Stopping s0 s
      → Stopping s0 s' × (suc (work_left s') ≤ work_left s)
  WorkerStep-Stopping s0 s _ (take _ others task p idle e) h =
      let (queue, room, same_stop) = next_round-takes s.pool p task e in
      let len = ap (λ q. length q) queue in
      (
        record {
          stopped = same_stop ∙ h.stopped;
          drained = λ some_gone. absurd (cc (sym queue ∙ h.drained some_gone));
          no_more = h.no_more;
        },
        omega arith,
      )
  WorkerStep-Stopping s0 s _ (finish _ before after task busy) h =
      let len = ap (λ q. length q) busy ∙ length-append before (task ∷ after) in
      let len' = length-append before after in
      (record { stopped = h.stopped; drained = h.drained; no_more = h.no_more }, omega arith)
  WorkerStep-Stopping s0 s _ (leave _ others idle e) h = (
    record {
      stopped = h.stopped;
      drained = λ some_gone. (next_round-leaves s.pool e).0;
      no_more = h.no_more;
    },
    omega arith,
  )

  WorkerRun-Stopping :
      (s0 : Threads A) (n : ℕ) (s : Threads A)
      → Stopping s0 s0
      → WorkerRun s0 n s
      → Stopping s0 s × (n + work_left s ≤ work_left s0)
  WorkerRun-Stopping s0 _ _ h no_step = (h, omega arith)
  WorkerRun-Stopping s0 _ u h (one_more n t _ run last) =
      let (now, bound) = WorkerRun-Stopping s0 n t h run in
      let (then_so, less) = WorkerStep-Stopping s0 t u last now in (then_so, omega arith)

  WorkerRun-Invariant :
      (threads most : ℕ) (s0 : Threads A) (n : ℕ) (s : Threads A)
      → Invariant threads most s0
      → WorkerRun s0 n s
      → Invariant threads most s
  WorkerRun-Invariant threads most s0 _ _ h no_step = h
  WorkerRun-Invariant threads most s0 _ u h (one_more n t _ run last) =
      WorkerStep-Invariant threads most t u last (WorkerRun-Invariant threads most s0 n t h run)

  abbrev pub NoStep : Threads A → Type 0
  NoStep s = (t : Threads A) → ¬ (WorkerStep s t)

  -- Of a stopped pool every thread that is idle or busy has a step.
  idle_moves :
      (s : Threads A) (others : ℕ) → s.pool.stop ≡ true → s.idle ≡ suc others → ¬ (NoStep s)
  unfolding next_round
  idle_moves s others stopped idle stuck = by_queue s.pool.workqueue refl
    where
      by_queue : (q : List (Option A)) → s.pool.workqueue ≡ q → ⊥
      by_queue [] h = stuck _ (leave s others idle (rw (next_round, h, stopped) refl))
      by_queue (t ∷ rest) h =
          stuck _
            (take s others t (record s.pool { workqueue = rest }) idle (rw (next_round, h) refl))

  busy_moves : (s : Threads A) (b : List (Option A)) → s.busy ≡ b → NoStep s → s.busy ≡ []
  busy_moves s [] h stuck = h
  busy_moves s (t ∷ rest) h stuck = absurd (stuck _ (finish s [] rest t h))

  none_idle : (s : Threads A) (i : ℕ) → s.pool.stop ≡ true → s.idle ≡ i → NoStep s → s.idle ≡ 0
  none_idle s zero stopped h stuck = h
  none_idle s (suc i) stopped h stuck = absurd (idle_moves s i stopped h stuck)

  -- What the joined threads leave: all are gone, and each call of an accepted task was made once.
  pub record Drained (threads : ℕ) (accepted : List (Option A)) (s : Threads A) : Type 0 where
    pub all_gone : s.gone ≡ threads
    pub queue_empty : s.pool.workqueue ≡ []
    pub all_called : (p : A → Bool) → count p s.called ≡ count p (calls accepted)

  stuck-Drained :
      (threads most : ℕ) (s0 s : Threads A)
      → threads ≢ 0
      → Stopping s0 s
      → Invariant threads most s
      → NoStep s
      → Drained threads s0.accepted s
  unfolding calls count
  stuck-Drained threads most s0 s some_thread h inv stuck =
      let idle = none_idle s s.idle h.stopped refl stuck in
      let busy = busy_moves s s.busy refl stuck in
      let len = ap (λ q. length q) busy in
      let workers = inv.workers in
      let all_gone : s.gone ≡ threads = omega arith in
      let empty = h.drained (λ z. some_thread (sym all_gone ∙ z)) in
      let done =
        sym (append-nil s.taken) ∙ ap (◌++◌ s.taken) (sym empty) ∙ inv.in_order ∙ h.no_more in
      record {
        all_gone = all_gone;
        queue_empty = empty;
        all_called = λ p.
            (let once = inv.once p in
              let none_held = ap (λ b. count p (calls b)) busy in
              let same = ap (λ l. count p (calls l)) done in omega arith);
      }

  -- When the destructor starts on a pool that ran in any interleaving and to which nothing is added any
  -- more, the workers make at most `3 * queued + 2 * busy + idle` steps, whichever they are; and when
  -- they have no step left, all threads have ended, so that `join` returns, and the calls of all the
  -- accepted tasks were made, each as often as it was accepted.
  pub shut_down-Drained :
      (thread_number max_requests : ℤ) (threads : ℕ) (p : ThreadPool A) (s s' : Threads A) (n : ℕ)
      → init thread_number max_requests ≡ some (threads, p)
      → Run (started threads p) s
      → s.pool.stop ≡ false
      → WorkerRun (record s { pool = shut_down s.pool }) n s'
      → (n ≤ work_left s) × (NoStep s' → Drained threads s.accepted s')
  unfolding shut_down GoneStopped started
  shut_down-Drained thread_number max_requests threads p s s' n e run going after =
      let (full, empty, going_on) = init-empty thread_number max_requests threads p e in
      let s0 : Threads A = record s { pool = shut_down s.pool } in
      let inv =
        init-Run-Invariant thread_number max_requests threads p s0 e (step s s0 run (shut s)) in
      let gone_stopped = Run-GoneStopped (started threads p) s run (λ z. absurd (z refl)) in
      let at_start : Stopping s0 s0 = record {
        stopped = refl;
        drained = λ some_gone. absurd (cc (sym going ∙ gone_stopped some_gone));
        no_more = refl;
      } in
      let (stopping, bound) = WorkerRun-Stopping s0 n s' at_start after in
      (
        omega arith,
        stuck-Drained threads p.max_requests s0 s' full stopping
            (WorkerRun-Invariant threads p.max_requests s0 n s' inv after),
      )
