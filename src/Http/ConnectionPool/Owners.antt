-- ===== src/Http/ConnectionPool/Owners.antt =====
-- The objects of `ManagedConnection` that own the connections, in every order of their operations.
use linux_cpp_web_server.Common.{
  ℕ, suc, ◌+◌, ◌%◌, ◌^◌, ◌≤◌, ◌≡◌, refl, ap, sym, ◌∙◌, none, some, List, [], ◌∷◌, ◌++◌, ltb, length,
  All, arith, inl, inr, Bool-cases,
}
use linux_cpp_web_server.Http.Connection.{HttpConnection, reset_for_keep_alive}
use linux_cpp_web_server.Http.ConnectionPool.{
  HttpConnectionPool, ManagedConnection, empty_pool, max_pool_size, acquire, put_back, release,
  clear, managed, release_managed, move_assign,
}
use linux_cpp_web_server.Http.ConnectionPool.Clean.{
  Clean, reset-Clean, init-Clean, reinitialize-Clean,
}

-- How many of the objects own a connection.
unfoldable pub owning : List ManagedConnection → ℕ
owning [] = 0
owning (none ∷ ms) = owning ms
owning (some conn ∷ ms) = suc (owning ms)

abbrev one : ManagedConnection → ℕ
one m = owning (m ∷ [])

owning-append : (ms ns : List ManagedConnection) → owning (ms ++ ns) ≡ owning ms + owning ns
unfolding owning
owning-append [] ns = omega arith
owning-append (none ∷ ms) ns = owning-append ms ns
owning-append (some conn ∷ ms) ns = let more = owning-append ms ns in omega arith

owning-middle :
    (before after : List ManagedConnection) (m : ManagedConnection)
    → owning (before ++ m ∷ after) ≡ owning before + one m + owning after
unfolding owning
owning-middle before after none = let e = owning-append before (none ∷ after) in omega arith
owning-middle before after (some conn) =
    let e = owning-append before (some conn ∷ after) in omega arith

-- An object is made, works with its connection, gives it back or ends, or is assigned from another one
-- that stands behind or before it; and the pool is cleared.
pub data Step
    : List ManagedConnection
      → HttpConnectionPool
      → List ManagedConnection
      → HttpConnectionPool
      → Type 0 where
  construct :
      (ms : List ManagedConnection) (p : HttpConnectionPool)
      → Step ms p ((managed p).0 ∷ ms) (managed p).1
  work :
      (before after : List ManagedConnection) (conn conn' : HttpConnection) (p : HttpConnectionPool)
      → Step (before ++ some conn ∷ after) p (before ++ some conn' ∷ after) p
  give_back :
      (before after : List ManagedConnection) (m : ManagedConnection) (p : HttpConnectionPool)
      → Step
          (before ++ m ∷ after)
          p
          (before ++ (release_managed m p).0 ∷ after)
          (release_managed m p).1
  destroy :
      (before after : List ManagedConnection) (m : ManagedConnection) (p : HttpConnectionPool)
      → Step (before ++ m ∷ after) p (before ++ after) (release_managed m p).1
  assign :
      (before between after : List ManagedConnection) (m other : ManagedConnection)
      (p : HttpConnectionPool)
      → Step
          (before ++ m ∷ (between ++ other ∷ after))
          p
          (before ++ (move_assign m other p).0 ∷ (between ++ (move_assign m other p).1 ∷ after))
          (move_assign m other p).2
  assign_back :
      (before between after : List ManagedConnection) (m other : ManagedConnection)
      (p : HttpConnectionPool)
      → Step
          (before ++ other ∷ (between ++ m ∷ after))
          p
          (before ++ (move_assign m other p).1 ∷ (between ++ (move_assign m other p).0 ∷ after))
          (move_assign m other p).2
  clear_pool : (ms : List ManagedConnection) (p : HttpConnectionPool) → Step ms p ms (clear p)

pub data Run (p : HttpConnectionPool) : List ManagedConnection → HttpConnectionPool → Type 0 where
  start : Run p [] p
  step :
      (ms ns : List ManagedConnection) (q r : HttpConnectionPool)
      → Run p ms q
      → Step ms q ns r
      → Run p ns r

-- The free connections are clean and at most 10000, and the counter counts the owned ones.
pub record IsValid (ms : List ManagedConnection) (p : HttpConnectionPool) : Type 0 where
  pub bounded : length p.free_connections ≤ max_pool_size
  pub clean : All Clean p.free_connections
  pub used : p.in_use ≡ owning ms % 2 ^ 64

abbrev PoolValid : ℕ → HttpConnectionPool → Type 0
PoolValid n p =
    (length p.free_connections ≤ max_pool_size)
    × All Clean p.free_connections
    × (p.in_use ≡ n % 2 ^ 64)

put_back-PoolValid :
    (n : ℕ) (c : HttpConnection) (p : HttpConnectionPool)
    → Clean c
    → PoolValid n p
    → PoolValid n (put_back c p)
unfolding put_back
put_back-PoolValid n c p h (bound, clean, used) =
    elim (Bool-cases (ltb (length p.free_connections) max_pool_size)) [
      | inl room ↦ rw (put_back, room) (ground arith, (h, clean), used)
      | inr full ↦ rw (put_back, full) (bound, clean, used)
    ]

release_managed-PoolValid :
    (m : ManagedConnection) (n : ℕ) (p : HttpConnectionPool)
    → PoolValid (one m + n) p
    → PoolValid n (release_managed m p).1
unfolding release_managed release owning
release_managed-PoolValid none n p h =
    let (a, b, c) = h in (a, b, c ∙ ap (λ k. k % 2 ^ 64) (omega arith))
release_managed-PoolValid (some conn) n p h =
    let (a, b, c) =
      put_back-PoolValid (suc n) (reset_for_keep_alive conn) p (reset-Clean conn)
        (let (a, b, c) = h in (a, b, c ∙ ap (λ k. k % 2 ^ 64) (omega arith))) in
    let (x, y, z) = h in (a, b, omega arith)

released_none : (m : ManagedConnection) (p : HttpConnectionPool) → (release_managed m p).0 ≡ none
unfolding release_managed
released_none none p = refl
released_none (some conn) p = refl

-- What `acquire` hands out is clean, and it adds one to the count.
acquire-PoolValid :
    (n : ℕ) (p : HttpConnectionPool) (l : List HttpConnection)
    → p.free_connections ≡ l
    → PoolValid n p
    → Clean (acquire p).0 × PoolValid (suc n) (acquire p).1
unfolding acquire
acquire-PoolValid n p [] e (bound, clean, used) =
    rw (acquire, e) (init-Clean, (bound, clean, omega arith))
acquire-PoolValid n p (c ∷ rest) e h =
    let (bound, clean, used) = h in
    let len = ap (λ l. length l) e in
    let clean' : All Clean (c ∷ rest) = rw e at clean in
    rw (acquire, e) (reinitialize-Clean c, (omega arith, clean'.1, omega arith))

module _ (before after : List ManagedConnection) (p : HttpConnectionPool) where
  give_back-PoolValid :
      (m : ManagedConnection)
      → PoolValid (owning (before ++ m ∷ after)) p
      → PoolValid (owning (before ++ after)) (release_managed m p).1
  give_back-PoolValid m (a, b, c) =
      let e = owning-middle before after m in
      let f = owning-append before after in
      release_managed-PoolValid m (owning (before ++ after)) p
        (a, b, c ∙ ap (λ k. k % 2 ^ 64) (omega arith))

  owning_null : owning (before ++ none ∷ after) ≡ owning (before ++ after)
  unfolding owning
  owning_null =
      owning-middle before after none ∙ (let f = owning-append before after in omega arith)

at_count : (m n : ℕ) (p : HttpConnectionPool) → m ≡ n → PoolValid m p → PoolValid n p
at_count m n p e (a, b, c) = (a, b, c ∙ ap (λ k. k % 2 ^ 64) e)

-- The two ends of an assignment own together what the other owned.
assigned :
    (before between after : List ManagedConnection) (x y : ManagedConnection) (n : ℕ)
    → one x + one y ≡ n
    → owning (before ++ x ∷ (between ++ y ∷ after))
      ≡ n + owning before + owning between + owning after
assigned before between after x y n e =
    let a = owning-middle before (between ++ y ∷ after) x in
    let b = owning-middle between after y in omega arith

Step-PoolValid :
    (ms : List ManagedConnection) (p : HttpConnectionPool) (ns : List ManagedConnection)
    (q : HttpConnectionPool)
    → Step ms p ns q
    → PoolValid (owning ms) p
    → PoolValid (owning ns) q
unfolding owning managed clear move_assign
Step-PoolValid ms p _ _ (construct _ _) h =
    (acquire-PoolValid (owning ms) p p.free_connections refl h).1
Step-PoolValid _ p _ _ (work before after conn conn' _) h =
    at_count _ _ p
      (owning-middle before after (some conn) ∙ sym (owning-middle before after (some conn'))) h
Step-PoolValid _ p _ _ (give_back before after m _) h =
    at_count _ _ (release_managed m p).1
      (sym
        (ap (λ x. owning (before ++ x ∷ after)) (released_none m p) ∙ owning_null before after p))
      (give_back-PoolValid before after p m h)
Step-PoolValid _ p _ _ (destroy before after m _) h = give_back-PoolValid before after p m h
Step-PoolValid _ p _ _ (assign before between after m other _) h =
    let all = assigned before between after m other (one m + one other) refl in
    let rest = assigned before between after other none (one other) (omega arith) in
    release_managed-PoolValid m (owning (before ++ other ∷ (between ++ none ∷ after))) p
      (at_count _ _ p (omega arith) h)
Step-PoolValid _ p _ _ (assign_back before between after m other _) h =
    let all = assigned before between after other m (one m + one other) (omega arith) in
    let rest = assigned before between after none other (one other) (omega arith) in
    release_managed-PoolValid m (owning (before ++ none ∷ (between ++ other ∷ after))) p
      (at_count _ _ p (omega arith) h)
Step-PoolValid ms p _ _ (clear_pool _ _) (a, b, c) = (omega arith, tt, c)

Run-PoolValid :
    (ms : List ManagedConnection) (p : HttpConnectionPool)
    → Run empty_pool ms p
    → PoolValid (owning ms) p
unfolding empty_pool owning
Run-PoolValid _ _ start = (omega arith, tt, refl)
Run-PoolValid _ r (step ms ns q _ run last) = Step-PoolValid ms q ns r last (Run-PoolValid ms q run)

-- From the empty pool, whatever the owners of connections do and in whatever order, at most 10000
-- connections are free and all of them are clean, the counter is the number of the owned connections
-- modulo 2 ^ 64, and the connection that the pool hands out next, new or used, is clean: it carries no
-- bytes, no response, no file and no part of a request of an earlier client.
pub Run-acquire-Clean :
    (ms : List ManagedConnection) (p : HttpConnectionPool)
    → Run empty_pool ms p
    → IsValid ms p × Clean (acquire p).0
Run-acquire-Clean ms p run =
    let (a, b, c) = Run-PoolValid ms p run in
    (
      record { bounded = a; clean = b; used = c },
      (acquire-PoolValid (owning ms) p p.free_connections refl (a, b, c)).0,
    )
