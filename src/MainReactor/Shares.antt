-- ===== src/MainReactor/Shares.antt =====
-- What the pipe of a sub reactor is owed by src/webserver/WebServer.cpp: its share of the connections and
-- the news of the signals.
use linux_cpp_web_server.Common.{
  ℕ, zero, suc, ◌+◌, ◌%◌, ◌<◌, ◌≡◌, ◌≢◌, refl, ap, sym, ◌∙◌, Bool, ◌||◌, Option, none, some, List,
  [], ◌∷◌, ◌++◌, ◌==◌, if◌then◌else◌, length, get_elem?, length-map, inl, inr, Bool-cases, arith,
  append-nil,
}
use mathlib.Core.Path.{subst}
use linux_cpp_web_server.Sql.{ℤ, pos}
use linux_cpp_web_server.MainReactor.{
  WebServer, Event, connections, signals, unexpected, stop_message, tick_message, sigterm, sigint,
  sigalrm, send_all, on_signal,
}

-- The connections before the first failure of `accept`.
unfoldable pub accepted : List (Option ℕ) → List ℕ
accepted [] = []
accepted (none ∷ rest) = []
accepted (some fd ∷ rest) = fd ∷ accepted rest

-- Of connections that are numbered from `k` on, those whose number leaves `i` modulo `n`.
unfoldable pub share : ℕ → ℕ → ℕ → List ℕ → List ℤ
share n i k [] = []
share n i k (fd ∷ fds) =
    let rest = share n i (suc k) fds in if k % n == i then pos fd ∷ rest else rest

-- What a signal is to a sub reactor.
unfoldable pub news : List ℕ → List ℤ
news [] = []
news (sig ∷ sigs) =
    let rest = news sigs in
    if sig == sigterm || sig == sigint
    then stop_message ∷ rest
    else if sig == sigalrm
    then tick_message ∷ rest
    else rest

-- The messages to the reactor `i` of `n`, where `k` connections came before.
unfoldable pub inbox : ℕ → ℕ → ℕ → List Event → List ℤ
inbox n i k [] = []
inbox n i k (connections answers ∷ es) =
    share n i k (accepted answers) ++ inbox n i (k + length (accepted answers)) es
inbox n i k (signals sigs ∷ es) = news sigs ++ inbox n i k es
inbox n i k (unexpected fd broken ∷ es) = inbox n i k es

unfoldable pub arrivals : List Event → ℕ
arrivals [] = 0
arrivals (connections answers ∷ es) = length (accepted answers) + arrivals es
arrivals (signals sigs ∷ es) = arrivals es
arrivals (unexpected fd broken ∷ es) = arrivals es

module _ (n i : ℕ) where
  -- `n` reactors, of which the reactor `i` was sent `sent`, and `k` connections so far.
  pub record Sent (k : ℕ) (sent : List ℤ) (w : WebServer) : Type 0 where
    pub number : w.sub_reactor_num ≡ n
    pub reactors : length w.pipes ≡ n
    pub counter : w.round_robin_counter ≡ k
    pub inbox_of : get_elem? w.pipes i ≡ some sent

  get_elem?-map :
      (msg : ℤ) (pipes : List (List ℤ)) (j : ℕ) (sent : List ℤ)
      → get_elem? pipes j ≡ some sent
      → get_elem? (send_all msg pipes) j ≡ some (sent ++ msg ∷ [])
  unfolding send_all
  get_elem?-map msg [] j sent h = absurd (cc)
  get_elem?-map msg (p ∷ ps) zero sent h =
      let same : p ≡ sent = cc h in ap (λ x. some (x ++ msg ∷ [])) same
  get_elem?-map msg (p ∷ ps) (suc j) sent h = get_elem?-map msg ps j sent h

  pub on_signal-Sent :
      (k sig : ℕ) (sent : List ℤ) (w : WebServer)
      → Sent k sent w
      → Sent k (sent ++ news (sig ∷ [])) (on_signal sig w)
  unfolding on_signal news send_all
  on_signal-Sent k sig sent w h = elim (Bool-cases (sig == sigterm || sig == sigint)) [
    | inl ends ↦ rw (on_signal, news, ends) (told stop_message)
    | inr going ↦ elim (Bool-cases (sig == sigalrm)) [
      | inl rings ↦ rw (on_signal, news, going, rings) (told tick_message)
      | inr other ↦
          rw (on_signal, news, going, other) (subst (λ s. Sent k s w) (sym (append-nil sent)) h)
    ]
  ]
    where
      told :
          {b : Bool} {a : ℕ} (msg : ℤ)
          → Sent k
              (sent ++ msg ∷ [])
              (record w { stop_server = b; pipes = send_all msg w.pipes; alarms = a })
      told msg = record {
        number = h.number;
        reactors = length-map w.pipes (λ s. s ++ msg ∷ []) ∙ h.reactors;
        counter = h.counter;
        inbox_of = get_elem?-map msg w.pipes i sent h.inbox_of;
      }

pub at_index :
    (pipes : List (List ℤ)) (j : ℕ)
    → j < length pipes
    → (sent : List ℤ) × (get_elem? pipes j ≡ some sent)
at_index [] j h = absurd (omega arith)
at_index (p ∷ ps) zero h = (p, refl)
at_index (p ∷ ps) (suc j) h = at_index ps j (omega arith)

pub mod_less : (k n : ℕ) → n ≢ 0 → k % n < n
mod_less k zero h = absurd (h refl)
mod_less k (suc n) h = omega arith
