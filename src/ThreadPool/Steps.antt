-- ===== src/ThreadPool/Steps.antt =====
-- Workers of the thread pool in every interleaving. A worker is at the head of the loop of `run`, busy
-- with a task, or gone. `accepted`, `taken` and `called` record what has happened.
use linux_cpp_web_server.Common.{
  ℕ, suc, ◌+◌, ◌≤◌, ◌≡◌, refl, ap, sym, ◌∙◌, Bool, true, false, Option, List, [], ◌∷◌, ◌++◌,
  if◌then◌else◌, length, append_assoc, arith,
}
use linux_cpp_web_server.ThreadPool.{ThreadPool, append, leaves, takes, next_round, call, shut_down}

module _ {A : Type 0} where
  -- How many elements pass a test.
  unfoldable pub count : (A → Bool) → List A → ℕ
  count p [] = 0
  count p (x ∷ xs) = if p x then suc (count p xs) else count p xs

  pub count-append : (p : A → Bool) (xs ys : List A) → count p (xs ++ ys) ≡ count p xs + count p ys
  unfolding count
  count-append p [] ys = omega arith
  count-append p (x ∷ xs) ys = ground (arith, count-append p xs ys)

  -- All the calls that a list of tasks makes.
  unfoldable pub calls : List (Option A) → List A
  calls [] = []
  calls (t ∷ ts) = call t ++ calls ts

  pub calls-append : (ts us : List (Option A)) → calls (ts ++ us) ≡ calls ts ++ calls us
  unfolding calls
  calls-append [] us = refl
  calls-append (t ∷ ts) us =
      ap (◌++◌ (call t)) (calls-append ts us) ∙ sym (append_assoc (call t) (calls ts) (calls us))

pub record Threads (A : Type 0) : Type 0 where
  pub pool : ThreadPool A
  pub idle : ℕ
  pub busy : List (Option A)
  pub gone : ℕ
  pub accepted : List (Option A)
  pub taken : List (Option A)
  pub called : List A

module _ {A : Type 0} where
  unfoldable pub started : ℕ → ThreadPool A → Threads A
  started threads p = record {
    pool = p;
    idle = threads;
    busy = [];
    gone = 0;
    accepted = [];
    taken = [];
    called = [];
  }

  -- A step of a worker.
  pub data WorkerStep : Threads A → Threads A → Type 0 where
    take :
        (s : Threads A) (others : ℕ) (task : Option A) (p : ThreadPool A)
        → s.idle ≡ suc others
        → next_round s.pool ≡ takes task p
        → WorkerStep s (record s {
          pool = p;
          idle = others;
          busy = task ∷ s.busy;
          taken = s.taken ++ task ∷ [];
        })
    finish :
        (s : Threads A) (before after : List (Option A)) (task : Option A)
        → s.busy ≡ before ++ task ∷ after
        → WorkerStep s
            (record s { idle = suc s.idle; busy = before ++ after; called = s.called ++ call task })
    leave :
        (s : Threads A) (others : ℕ)
        → s.idle ≡ suc others
        → next_round s.pool ≡ leaves
        → WorkerStep s (record s { idle = others; gone = suc s.gone })

  -- A step of a worker, a call of `append`, or the start of the destructor.
  pub data Step : Threads A → Threads A → Type 0 where
    work : (s s' : Threads A) → WorkerStep s s' → Step s s'
    accept :
        (s : Threads A) (task : Option A) (p : ThreadPool A)
        → append task s.pool ≡ (true, p)
        → Step s (record s { pool = p; accepted = s.accepted ++ task ∷ [] })
    refuse :
        (s : Threads A) (task : Option A) (p : ThreadPool A)
        → append task s.pool ≡ (false, p)
        → Step s (record s { pool = p })
    shut : (s : Threads A) → Step s (record s { pool = shut_down s.pool })

  pub data Run (s : Threads A) : Threads A → Type 0 where
    start : Run s s
    step : (t u : Threads A) → Run s t → Step t u → Run s u

  -- What holds of a pool of `threads` workers with room for `most` tasks.
  pub record Invariant (threads most : ℕ) (s : Threads A) : Type 0 where
    pub room : s.pool.max_requests ≡ most
    pub bounded : length s.pool.workqueue ≤ most
    pub in_order : s.taken ++ s.pool.workqueue ≡ s.accepted
    pub workers : s.idle + length s.busy + s.gone ≡ threads
    pub once : (p : A → Bool) → count p s.called + count p (calls s.busy) ≡ count p (calls s.taken)

  module _ (threads most : ℕ) where
    pub start-Invariant :
        (p : ThreadPool A)
        → p.max_requests ≡ most
        → p.workqueue ≡ []
        → Invariant threads most (started threads p)
    unfolding started count calls
    start-Invariant p room empty = record {
      room = room;
      bounded = rw empty (omega arith);
      in_order = empty;
      workers = omega arith;
      once = λ q. omega arith;
    }
