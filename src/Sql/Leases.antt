-- ===== src/Sql/Leases.antt =====
-- Connections that are lent and given back, in every order of the calls.
use linux_cpp_web_server.Common.{
  ℕ, suc, ◌+◌, ◌≡◌, ◌≢◌, refl, ap, sym, ◌∙◌, some, List, [], ◌∷◌, ◌++◌, ◌==◌, if◌then◌else◌, length,
  length-append, append-nil, append_assoc, arith, map,
}
use mathlib.Core.Path.{subst}
use linux_cpp_web_server.Sql.{
  SqlConnectionPool, pos, increment, decrement, connect_all, init, empty_pool, get_connection,
  release_connection,
}

-- How often a connection stands in a list.
unfoldable pub count : ℕ → List ℕ → ℕ
count c [] = 0
count c (x ∷ xs) = if x == c then suc (count c xs) else count c xs

count-append : (c : ℕ) (xs ys : List ℕ) → count c (xs ++ ys) ≡ count c xs + count c ys
unfolding count
count-append c [] ys = omega arith
count-append c (x ∷ xs) ys = ground (arith, count-append c xs ys)

unfoldable pub give_back : ℕ → List ℕ → List ℕ
give_back c [] = []
give_back c (x ∷ xs) = let rest = give_back c xs in if x == c then xs else x ∷ rest

count-give_back :
    (c d : ℕ) (xs : List ℕ) → count c xs ≢ 0 → count d xs ≡ count d (c ∷ give_back c xs)
unfolding count give_back
count-give_back c d [] h = absurd (h refl)
count-give_back c d (x ∷ xs) h = ground (arith, count-give_back c d xs)

length-give_back :
    (c : ℕ) (xs : List ℕ) → count c xs ≢ 0 → length xs ≡ suc (length (give_back c xs))
unfolding count give_back
length-give_back c [] h = absurd (h refl)
length-give_back c (x ∷ xs) h = ground (arith, length-give_back c xs)

-- A pool, and the connections that callers hold: `GetConnection` lends one, `ReleaseConnection` takes
-- one back that a caller holds.
pub data Step : SqlConnectionPool → List ℕ → SqlConnectionPool → List ℕ → Type 0 where
  lend :
      (p : SqlConnectionPool) (lent : List ℕ) (con : ℕ) (q : SqlConnectionPool)
      → get_connection p ≡ some (con, q)
      → Step p lent q (con ∷ lent)
  take_back :
      (p : SqlConnectionPool) (lent : List ℕ) (con : ℕ)
      → count con lent ≢ 0
      → Step p lent (release_connection (some con) p).1 (give_back con lent)

pub data Run (p : SqlConnectionPool) : SqlConnectionPool → List ℕ → Type 0 where
  start : Run p p []
  step :
      (q r : SqlConnectionPool) (lent lent' : List ℕ)
      → Run p q lent
      → Step q lent r lent'
      → Run p r lent'

-- The counters count, and each connection of `all` is in the list or with a caller, once as often as
-- it stands in `all`.
pub record Accounted (all : List ℕ) (p : SqlConnectionPool) (lent : List ℕ) : Type 0 where
  pub free : p.free_conn ≡ pos (length p.conn_list)
  pub used : p.cur_conn ≡ pos (length lent)
  pub total : p.max_conn ≡ pos (length p.conn_list + length lent)
  pub each : (c : ℕ) → count c p.conn_list + count c lent ≡ count c all

abbrev lent_pool : SqlConnectionPool → List ℕ → SqlConnectionPool
lent_pool p rest = record p {
  conn_list = rest;
  free_conn = decrement p.free_conn;
  cur_conn = increment p.cur_conn;
}

lent_pool-Accounted :
    (all : List ℕ) (p : SqlConnectionPool) (lent : List ℕ) (con : ℕ) (rest : List ℕ)
    → p.conn_list ≡ con ∷ rest
    → Accounted all p lent
    → Accounted all (lent_pool p rest) (con ∷ lent)
unfolding increment decrement count
lent_pool-Accounted all p lent con rest e h = record {
  free = ap decrement (h.free ∙ ap (λ l. pos (length l)) e);
  used = ap increment h.used;
  total = h.total ∙ ap (λ l. pos (length l + length lent)) e ∙ ap pos (omega arith);
  each = λ c. (let old = sym (ap (λ l. count c l + count c lent) e) ∙ h.each c in ground arith);
}

pub lend_from :
    (all : List ℕ) (p : SqlConnectionPool) (lent l : List ℕ) (con : ℕ) (q : SqlConnectionPool)
    → p.conn_list ≡ l
    → get_connection p ≡ some (con, q)
    → Accounted all p lent
    → Accounted all q (con ∷ lent)
unfolding get_connection
lend_from all p lent [] con q e g h = absurd (cc (rw (get_connection, e) at g))
lend_from all p lent (c ∷ rest) con q e g h =
    let same : some (c, lent_pool p rest) ≡ some (con, q) = rw (get_connection, e) at g in
    let con_same : c ≡ con = cc same in
    subst (λ x. Accounted all x (con ∷ lent)) (cc same)
      (subst (λ x. Accounted all (lent_pool p rest) (x ∷ lent)) con_same
        (lent_pool-Accounted all p lent c rest e h))

pub release-Accounted :
    (all : List ℕ) (p : SqlConnectionPool) (lent : List ℕ) (con : ℕ)
    → count con lent ≢ 0
    → Accounted all p lent
    → Accounted all (release_connection (some con) p).1 (give_back con lent)
unfolding release_connection increment decrement count
release-Accounted all p lent con held h =
    let len = length-give_back con lent held in
    let back = length-append p.conn_list (con ∷ []) in
    record {
      free = ap increment h.free ∙ ap pos (omega arith);
      used = ap decrement (h.used ∙ ap pos len);
      total = h.total ∙ ap pos (omega arith);
      each = λ c.
          (let lent_c = count-give_back con c lent held in
            let list_c = count-append c p.conn_list (con ∷ []) in
            let old = h.each c in ground arith);
    }

pub step-Accounted :
    (all : List ℕ) (p q : SqlConnectionPool) (lent lent' : List ℕ)
    → Step p lent q lent'
    → Accounted all p lent
    → Accounted all q lent'
step-Accounted all p q lent _ (lend _ _ con _ g) h = lend_from all p lent p.conn_list con q refl g h
step-Accounted all p _ lent _ (take_back _ _ con held) h = release-Accounted all p lent con held h

connected : SqlConnectionPool → List ℕ → ℕ → SqlConnectionPool
connected p list n = record p { conn_list = list; free_conn = pos n }

connect_all-all :
    (all before : List ℕ) (n : ℕ)
    → connect_all (map some all) (connected empty_pool before n)
      ≡ some (connected empty_pool (before ++ all) (n + length all))
unfolding connect_all connected increment
connect_all-all [] before n = let e : n + 0 ≡ n = omega arith in rw (append-nil before, e) refl
connect_all-all (c ∷ all) before n =
    let e : suc n + length all ≡ n + suc (length all) = omega arith in
    connect_all-all all (before ++ c ∷ []) (suc n)
    ∙ ap some (ap (connected empty_pool (before ++ c ∷ [] ++ all)) e)
    ∙ ap some
        (ap (λ l. connected empty_pool l (n + suc (length all))) (append_assoc before (c ∷ []) all))

pub init-Accounted :
    (all : List ℕ) (p : SqlConnectionPool)
    → init (map some all) empty_pool ≡ some p
    → Accounted all p []
unfolding init connected empty_pool count
init-Accounted all p e =
    let z : 0 + length all ≡ length all = omega arith in
    let full : SqlConnectionPool = record (connected empty_pool all (length all)) {
      max_conn = pos (length all);
    } in
    let same : some full ≡ some p = sym (rw (init, connect_all-all all [] 0, z) refl) ∙ e in
    subst (λ q. Accounted all q []) {x = full} {y = p} (cc same)
      (record { free = refl; used = refl; total = ap pos (omega arith); each = λ c. omega arith })

Run-Accounted :
    (all : List ℕ) (p q : SqlConnectionPool) (lent : List ℕ)
    → Accounted all p []
    → Run p q lent
    → Accounted all q lent
Run-Accounted all p q lent h start = h
Run-Accounted all p r lent' h (step q _ lent _ run s) =
    step-Accounted all q r lent lent' s (Run-Accounted all p q lent h run)

-- From a pool that `init` filled with the connections `all`, in every order in which connections are
-- lent and given back, the counters of free and of used connections count them, the maximum is their
-- sum, and each connection is in the list or with a caller, together as often as in `all`: none is
-- lost, and none is lent twice.
pub init-Run-Accounted :
    (all : List ℕ) (p q : SqlConnectionPool) (lent : List ℕ)
    → init (map some all) empty_pool ≡ some p
    → Run p q lent
    → Accounted all q lent
init-Run-Accounted all p q lent e run = Run-Accounted all p q lent (init-Accounted all p e) run
