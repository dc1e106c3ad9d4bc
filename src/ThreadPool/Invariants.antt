-- ===== src/ThreadPool/Invariants.antt =====
-- Every step of the workers of the thread pool, src/ThreadPool.cpp, keeps the invariant.
use linux_cpp_web_server.Common.{
  ℕ, suc, ◌+◌, ◌≤◌, ◌≡◌, refl, ap, sym, ◌∙◌, Bool, true, false, Option, List, [], ◌∷◌, ◌++◌, length,
  leb, append-nil, append_assoc, length-append, arith, inl, inr, Bool-cases,
}
use linux_cpp_web_server.ThreadPool.{ThreadPool, append, leaves, takes, next_round, call, shut_down}
use linux_cpp_web_server.ThreadPool.Steps.{
  count, count-append, calls, calls-append, Threads, WorkerStep, take, finish, leave, Step, work,
  accept, refuse, shut, Run, start, step, Invariant,
}

module _ {A : Type 0} where
  -- What a round that takes a task says of the queue.
  pub next_round-takes :
      (s p : ThreadPool A) (task : Option A)
      → next_round s ≡ takes task p
      → (s.workqueue ≡ task ∷ p.workqueue) × (p.max_requests ≡ s.max_requests) × (p.stop ≡ s.stop)
  unfolding next_round
  next_round-takes s p task e = by_queue s.workqueue refl
    where
      by_queue :
          (q : List (Option A))
          → s.workqueue ≡ q
          → (s.workqueue ≡ task ∷ p.workqueue)
            × (p.max_requests ≡ s.max_requests)
            × (p.stop ≡ s.stop)
      by_queue [] h = elim (Bool-cases s.stop) [
        | inl on ↦ absurd (cc (rw (next_round, h, on) at e))
        | inr off ↦ absurd (cc (rw (next_round, h, off) at e))
      ]
      by_queue (t ∷ rest) h =
          let same : takes t (record s { workqueue = rest }) ≡ takes task p =
            rw (next_round, h) at e in
          let p_is : record s { workqueue = rest } ≡ p = cc same in
          let t_is : t ≡ task = cc same in
          (
            h ∙ ap (λ x. x ∷ rest) t_is ∙ ap (λ x. task ∷ x.workqueue) p_is,
            ap (λ x. x.max_requests) (sym p_is),
            ap (λ x. x.stop) (sym p_is),
          )

  pub next_round-leaves :
      (s : ThreadPool A) → next_round s ≡ leaves → (s.workqueue ≡ []) × (s.stop ≡ true)
  unfolding next_round
  next_round-leaves s e = by_queue s.workqueue refl
    where
      by_queue : (q : List (Option A)) → s.workqueue ≡ q → (s.workqueue ≡ []) × (s.stop ≡ true)
      by_queue [] h = elim (Bool-cases s.stop) [
        | inl on ↦ (h, on)
        | inr off ↦ absurd (cc (rw (next_round, h, off) at e))
      ]
      by_queue (t ∷ rest) h = absurd (cc (rw (next_round, h) at e))

  pub append-refused : (s p : ThreadPool A) (task : Option A) → append task s ≡ (false, p) → p ≡ s
  unfolding append
  append-refused s p task e = elim (Bool-cases (leb s.max_requests (length s.workqueue))) [
    | inl full ↦ sym (ap (λ x. x.1) (rw (append, full) at e))
    | inr some_room ↦ absurd (cc (ap (λ x. x.0) (rw (append, some_room) at e)))
  ]

  pub append-accepted :
      (s p : ThreadPool A) (task : Option A)
      → append task s ≡ (true, p)
      → (p ≡ record s { workqueue = s.workqueue ++ task ∷ [] })
        × (suc (length s.workqueue) ≤ s.max_requests)
  unfolding append
  append-accepted s p task e = elim (Bool-cases (leb s.max_requests (length s.workqueue))) [
    | inl full ↦ absurd (cc (ap (λ x. x.0) (rw (append, full) at e)))
    | inr some_room ↦ (sym (ap (λ x. x.1) (rw (append, some_room) at e)), ground arith)
  ]

module _ {A : Type 0} (threads most : ℕ) where
  finish_once :
      (p : A → Bool) (before after : List (Option A)) (task : Option A) (called : List A)
      → count p (called ++ call task) + count p (calls (before ++ after))
        ≡ count p called + count p (calls (before ++ task ∷ after))
  unfolding calls
  finish_once p before after task called =
      let c1 = count-append p called (call task) in
      let c2 =
        ap (count p) (calls-append before after) ∙ count-append p (calls before) (calls after) in
      let c3 =
        ap (count p) (calls-append before (task ∷ after))
        ∙ count-append p (calls before) (call task ++ calls after) in
      let c4 = count-append p (call task) (calls after) in omega arith

  pub WorkerStep-Invariant :
      (s s' : Threads A) → WorkerStep s s' → Invariant threads most s → Invariant threads most s'
  unfolding calls
  WorkerStep-Invariant s _ (take _ others task p idle e) h =
      let (queue, same_room, same_stop) = next_round-takes s.pool p task e in
      let len = ap (λ q. length q) queue in
      let bound = h.bounded in
      let workers = h.workers in
      record {
        room = same_room ∙ h.room;
        bounded = omega arith;
        in_order =
            append_assoc s.taken (task ∷ []) p.workqueue
            ∙ ap (◌++◌ s.taken) (sym queue)
            ∙ h.in_order;
        workers = omega arith;
        once = λ q.
            (let old = h.once q in
              let c1 = count-append q (call task) (calls s.busy) in
              let c2 =
                ap (count q) (
                  calls-append s.taken (task ∷ [])
                  ∙ ap (◌++◌ (calls s.taken)) (append-nil (call task)))
                ∙ count-append q (calls s.taken) (call task) in
              omega arith);
      }
  WorkerStep-Invariant s _ (finish _ before after task busy) h =
      let len = ap (λ q. length q) busy ∙ length-append before (task ∷ after) in
      let len' = length-append before after in
      let workers = h.workers in
      record {
        room = h.room;
        bounded = h.bounded;
        in_order = h.in_order;
        workers = omega arith;
        once = λ q.
            finish_once q before after task s.called
            ∙ ap (λ b. count q s.called + count q (calls b)) (sym busy)
            ∙ h.once q;
      }
  WorkerStep-Invariant s _ (leave _ others idle e) h =
      let workers = h.workers in
      record {
        room = h.room;
        bounded = h.bounded;
        in_order = h.in_order;
        workers = omega arith;
        once = h.once;
      }

  Step-Invariant :
      (s s' : Threads A) → Step s s' → Invariant threads most s → Invariant threads most s'
  unfolding shut_down
  Step-Invariant s s' (work _ _ w) h = WorkerStep-Invariant s s' w h
  Step-Invariant s _ (accept _ task p e) h =
      let (same, fits) = append-accepted s.pool p task e in
      let bound = ap (λ x. length x.workqueue) same ∙ length-append s.pool.workqueue (task ∷ []) in
      let room = h.room in
      record {
        room = ap (λ x. x.max_requests) same ∙ h.room;
        bounded = omega arith;
        in_order =
            ap (λ x. s.taken ++ x.workqueue) same
            ∙ sym (append_assoc s.taken s.pool.workqueue (task ∷ []))
            ∙ ap (λ x. x ++ task ∷ []) h.in_order;
        workers = h.workers;
        once = h.once;
      }
  Step-Invariant s _ (refuse _ task p e) h =
      let same = append-refused s.pool p task e in
      record {
        room = ap (λ x. x.max_requests) same ∙ h.room;
        bounded = let b = h.bounded in rw same b;
        in_order = ap (λ x. s.taken ++ x.workqueue) same ∙ h.in_order;
        workers = h.workers;
        once = h.once;
      }
  Step-Invariant s _ (shut _) h = record {
    room = h.room;
    bounded = h.bounded;
    in_order = h.in_order;
    workers = h.workers;
    once = h.once;
  }

  pub Run-Invariant :
      (s s' : Threads A) → Run s s' → Invariant threads most s → Invariant threads most s'
  Run-Invariant s _ start h = h
  Run-Invariant s u (step t _ run last) h = Step-Invariant t u last (Run-Invariant s t run h)
