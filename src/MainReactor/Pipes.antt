-- ===== src/MainReactor/Pipes.antt =====
-- What the pipes of the sub reactors receive from src/webserver/WebServer.cpp.
use linux_cpp_web_server.Common.{
  ℕ, suc, ◌+◌, ◌%◌, ◌^◌, ◌<◌, ◌≡◌, ◌≢◌, refl, ap, sym, ◌∙◌, true, false, ◌||◌, Option, none, some,
  List, [], ◌∷◌, ◌++◌, ◌==◌, ltb, length, set, get_elem?, get_elem?-set_self, get_elem?-set_ne,
  length-set, inl, inr, Bool-cases, arith, append-nil, append_assoc,
}
use mathlib.Core.Path.{subst}
use linux_cpp_web_server.Sql.{ℤ, pos}
use linux_cpp_web_server.MainReactor.{
  WebServer, Event, connections, signals, unexpected, sigterm, sigint, sigalrm, send_to, counted,
  dispatch, accept_all, on_signal, on_signals, on_event, on_events,
}
use linux_cpp_web_server.MainReactor.Shares.{
  Sent, accepted, share, news, inbox, arrivals, on_signal-Sent, at_index, mod_less,
}

module _ (n i : ℕ) (some_reactor : n ≢ 0) where
  share_first :
      (k fd : ℕ) (sent target : List ℤ) (pipes : List (List ℤ))
      → get_elem? pipes i ≡ some sent
      → get_elem? pipes (k % n) ≡ some target
      → length pipes ≡ n
      → get_elem? (set pipes (k % n) (target ++ pos fd ∷ [])) i
        ≡ some (sent ++ share n i k (fd ∷ []))
  unfolding share
  share_first k fd sent target pipes mine it len = elim (Bool-cases (k % n == i)) [
    | inl same ↦
        let here : k % n ≡ i = ground arith in
        let below = mod_less k n some_reactor in
        let is_sent : target ≡ sent = cc (sym it ∙ ap (get_elem? pipes) here ∙ mine) in
        rw (share, same)
          (subst
            (λ j.
              get_elem? (set pipes (k % n) (target ++ pos fd ∷ [])) j ≡ some (sent ++ pos fd ∷ []))
            here
            (get_elem?-set_self pipes (k % n) (target ++ pos fd ∷ []) (omega arith)
              ∙ ap (λ x. some (x ++ pos fd ∷ [])) is_sent))
    | inr other ↦
        rw (share, other)
          (get_elem?-set_ne pipes (target ++ pos fd ∷ [])
              (λ e. (let same : (k % n == i) ≡ true = ground arith in cc))
            ∙ mine
            ∙ ap some (sym (append-nil sent)))
  ]

  dispatch-Sent :
      (k fd : ℕ) (sent : List ℤ) (w : WebServer)
      → suc k < 2 ^ 31
      → Sent n i k sent w
      → (v : WebServer) × (dispatch fd w ≡ some v)
        × Sent n i (suc k) (sent ++ share n i k (fd ∷ [])) v
  unfolding dispatch send_to counted
  dispatch-Sent k fd sent w small h =
      let below = mod_less k n some_reactor in
      let (target, it) = at_index w.pipes (k % n) (let len = h.reactors in omega arith) in
      let fits : ltb (suc w.round_robin_counter) (2 ^ 31) ≡ true =
        ap (λ c. ltb (suc c) (2 ^ 31)) h.counter ∙ (ground arith) in
      let found : get_elem? w.pipes (w.round_robin_counter % w.sub_reactor_num) ≡ some target =
        ap (λ c. get_elem? w.pipes (c % w.sub_reactor_num)) h.counter
        ∙ ap (λ m. get_elem? w.pipes (k % m)) h.number
        ∙ it in
      let index : w.round_robin_counter % w.sub_reactor_num ≡ k % n =
        ap (λ c. c % w.sub_reactor_num) h.counter ∙ ap (λ m. k % m) h.number in
      let pipes = set w.pipes (w.round_robin_counter % w.sub_reactor_num) (target ++ pos fd ∷ []) in
      (
        counted pipes w,
        rw (dispatch, fits, send_to, found) refl,
        record {
          number = h.number;
          reactors =
              length-set w.pipes (w.round_robin_counter % w.sub_reactor_num) (target ++ pos fd ∷ [])
              ∙ h.reactors;
          counter = ap suc h.counter;
          inbox_of =
              ap (λ j. get_elem? (set w.pipes j (target ++ pos fd ∷ [])) i) index
              ∙ share_first k fd sent target w.pipes h.inbox_of it h.reactors;
        },
      )

  share_cons :
      (k fd : ℕ) (fds : List ℕ)
      → share n i k (fd ∷ fds) ≡ share n i k (fd ∷ []) ++ share n i (suc k) fds
  unfolding share
  share_cons k fd fds = elim (Bool-cases (k % n == i)) [
    | inl same ↦ rw (share, same) refl
    | inr other ↦ rw (share, other) refl
  ]

  news_cons : (sig : ℕ) (sigs : List ℕ) → news (sig ∷ sigs) ≡ news (sig ∷ []) ++ news sigs
  unfolding news
  news_cons sig sigs = elim (Bool-cases (sig == sigterm || sig == sigint)) [
    | inl ends ↦ rw (news, ends) refl
    | inr going ↦ elim (Bool-cases (sig == sigalrm)) [
      | inl rings ↦ rw (news, going, rings) refl
      | inr other ↦ rw (news, going, other) refl
    ]
  ]

  -- The same message list, regrouped.
  regroup :
      (k : ℕ) (sent a b whole : List ℤ) (w : WebServer)
      → whole ≡ a ++ b
      → Sent n i k (sent ++ a ++ b) w
      → Sent n i k (sent ++ whole) w
  regroup k sent a b whole w e h =
      subst (λ s. Sent n i k s w) (append_assoc sent a b ∙ ap (λ x. sent ++ x) (sym e)) h

  recount :
      (c k : ℕ) (sent : List ℤ) (w : WebServer) → c ≡ k → Sent n i c sent w → Sent n i k sent w
  recount c k sent w e h = subst (λ x. Sent n i x sent w) e h

  -- Nothing was sent.
  unsent :
      (k : ℕ) (sent : List ℤ) (w : WebServer) → Sent n i k sent w → Sent n i (k + 0) (sent ++ []) w
  unsent k sent w h =
      subst (λ s. Sent n i (k + 0) s w) (sym (append-nil sent))
        (recount k (k + 0) sent w (omega arith) h)

  on_signals-Sent :
      (sigs : List ℕ) (k : ℕ) (sent : List ℤ) (w : WebServer)
      → Sent n i k sent w
      → Sent n i k (sent ++ news sigs) (on_signals sigs w)
  unfolding on_signals news
  on_signals-Sent [] k sent w h = subst (λ s. Sent n i k s w) (sym (append-nil sent)) h
  on_signals-Sent (sig ∷ sigs) k sent w h =
      regroup k sent (news (sig ∷ [])) (news sigs) (news (sig ∷ sigs))
        (on_signals sigs (on_signal sig w)) (news_cons sig sigs)
        (on_signals-Sent sigs k (sent ++ news (sig ∷ [])) (on_signal sig w)
          (on_signal-Sent n i k sig sent w h))

  accept_all-Sent :
      (answers : List (Option ℕ)) (k : ℕ) (sent : List ℤ) (w : WebServer)
      → k + length (accepted answers) < 2 ^ 31
      → Sent n i k sent w
      → (v : WebServer) × (accept_all answers w ≡ some v)
        × Sent n i (k + length (accepted answers)) (sent ++ share n i k (accepted answers)) v
  unfolding accept_all accepted share
  accept_all-Sent [] k sent w small h = (w, refl, unsent k sent w h)
  accept_all-Sent (none ∷ rest) k sent w small h = (w, refl, unsent k sent w h)
  accept_all-Sent (some fd ∷ rest) k sent w small h =
      let (v, sent_one, hv) = dispatch-Sent k fd sent w (omega arith) h in
      let (u, done, hu) =
        accept_all-Sent rest (suc k) (sent ++ share n i k (fd ∷ [])) v (omega arith) hv in
      (
        u,
        rw (accept_all, sent_one) done,
        regroup (k + suc (length (accepted rest))) sent (share n i k (fd ∷ []))
            (share n i (suc k) (accepted rest)) (share n i k (fd ∷ accepted rest)) u
            (share_cons k fd (accepted rest)) (recount _ _ _ u (omega arith) hu),
      )

  -- While fewer than 2 ^ 31 connections come in, no event of the main reactor fails, and what each sub
  -- reactor is sent, in order, is what was sent before, its share of the new connections, those whose
  -- number leaves its own modulo the number of reactors, and a message for each signal that stops the
  -- server or for a tick.
  pub on_events-Sent :
      (es : List Event) (k : ℕ) (sent : List ℤ) (w : WebServer)
      → k + arrivals es < 2 ^ 31
      → Sent n i k sent w
      → (v : WebServer) × (on_events es w ≡ some v)
        × Sent n i (k + arrivals es) (sent ++ inbox n i k es) v
  unfolding on_events on_event arrivals inbox
  on_events-Sent [] k sent w small h = (w, refl, unsent k sent w h)
  on_events-Sent (connections answers ∷ es) k sent w small h =
      let (v, done, hv) = accept_all-Sent answers k sent w (omega arith) h in
      let (u, rest, hu) =
        on_events-Sent es (k + length (accepted answers)) (sent ++ share n i k (accepted answers)) v
          (omega arith) hv in
      (
        u,
        rw (on_events, done) rest,
        regroup (k + (length (accepted answers) + arrivals es)) sent
            (share n i k (accepted answers)) (inbox n i (k + length (accepted answers)) es) _ u refl
            (recount _ _ _ u (omega arith) hu),
      )
  on_events-Sent (signals sigs ∷ es) k sent w small h =
      let (u, rest, hu) =
        on_events-Sent es k (sent ++ news sigs) (on_signals sigs w) small
          (on_signals-Sent sigs k sent w h) in
      (u, rest, regroup (k + arrivals es) sent (news sigs) (inbox n i k es) _ u refl hu)
  on_events-Sent (unexpected fd true ∷ es) k sent w small h =
      on_events-Sent es k sent (record w { closed = w.closed ++ fd ∷ [] }) small
        (record {
          number = h.number;
          reactors = h.reactors;
          counter = h.counter;
          inbox_of = h.inbox_of;
        })
  on_events-Sent (unexpected fd false ∷ es) k sent w small h = on_events-Sent es k sent w small h
