-- ===== src/Reactor/Reuse.antt =====
-- Timers whose address comes again. A tick of src/Timer.cpp deletes a timer, and `client_data` of
-- src/webserver/SubReactor.cpp keeps the pointer until the connection is closed.
use linux_cpp_web_server.Common.{
  ℕ, suc, ◌+◌, ◌≡◌, refl, ap, sym, ◌∙◌, Bool, true, false, none, some, ◌==◌, if◌then◌else◌, inl,
  inr, Bool-cases, List, Option-cases, ==_refl, arith,
}
use linux_cpp_web_server.Common.Maps
use linux_cpp_web_server.Common.Maps.{nat_key, get-put, get-remove, has-put, has-remove}
use linux_cpp_web_server.Timer.{TimerManager, add_timer, del_timer}
use linux_cpp_web_server.Tools.Clients.{
  ClientData, no_client, live_timer, init_client_timer, del_client_timer,
}
use linux_cpp_web_server.WebSocket.Server.{is_websocket_conn}
use linux_cpp_web_server.Reactor.{SubReactor, client_of, drop_http, close_connection, removefd}
use linux_cpp_web_server.Reactor.Events.{open_connection}

flip : (a b : ℕ) (c : Bool) → (a == b) ≡ c → (b == a) ≡ c
flip a b true e = ground arith
flip a b false e = ground arith

get-put_same :
    {V : Type 0} (k : ℕ) (v : V) (m : List (ℕ × V)) → Maps.get k (Maps.put k v m) ≡ some v
get-put_same k v m = get-put k k v m ∙ rw (==_refl k) refl

get-put_other :
    {V : Type 0} (k j : ℕ) (v : V) (m : List (ℕ × V))
    → (k == j) ≡ false
    → Maps.get j (Maps.put k v m) ≡ Maps.get j m
get-put_other k j v m other = get-put k j v m ∙ rw other refl

del_client_timer-live :
    (cd : ClientData) (tm : TimerManager) (t : ℕ)
    → live_timer cd ≡ some t
    → (del_client_timer cd tm).0 ≡ del_timer t tm
unfolding del_client_timer
del_client_timer-live cd tm t live = rw (del_client_timer, live) refl

-- A timer is added, and then a pointer to a timer is deleted.
del_timer-add_timer :
    (t u expire : ℕ) (m : TimerManager)
    → Maps.get u (del_timer t (add_timer u expire m)).index ≡ (if t == u then none else some expire)
unfolding del_timer add_timer
del_timer-add_timer t u expire m = elim (Option-cases (Maps.get t (Maps.put u expire m.index))) [
  | inl gone ↦ elim (Bool-cases (t == u)) [
    | inl same ↦
        let here : Maps.get t (Maps.put u expire m.index) ≡ some expire =
          get-put u t expire m.index ∙ rw (flip t u true same) refl in
        absurd (cc (sym gone ∙ here))
    | inr other ↦ rw (del_timer, gone, other) (get-put_same u expire m.index)
  ]
  | inr (node, found) ↦
      rw (del_timer, found)
        (get-remove t u (Maps.put u expire m.index)
          ∙ ap (λ later. if t == u then none else later) (get-put_same u expire m.index))
]

-- What is left of a connection `b` that was accepted, when the connection `a` has been closed.
pub record Left (b u expire : ℕ) (lost : Bool) (s : SubReactor) : Type 0 where
  pub there : Maps.has b s.connections ≡ true
  pub client : live_timer (client_of b s) ≡ some u
  pub timer : Maps.get u s.timer_manager.index ≡ (if lost then none else some expire)

-- When the connection `b` is accepted and then another HTTP connection `a` is closed, whose client has
-- the timer `t`: `b` is open and its client points to its own timer, and that timer is in the manager, to
-- expire after the timeout, exactly where `new` has not answered `t` for it. Where it has, after a tick
-- deleted `t`, the manager does not have the timer of `b` any more.
pub close_connection-open_connection :
    (now a b t : ℕ) (r : SubReactor)
    → (a == b) ≡ false
    → live_timer (client_of a r) ≡ some t
    → is_websocket_conn a r.server ≡ false
    → Left b
        (r.address (suc r.next))
        (now + r.timeout_sec)
        (t == r.address (suc r.next))
        (close_connection a (open_connection now b r))
unfolding close_connection open_connection init_client_timer drop_http removefd client_of live_timer
close_connection-open_connection now a b t r other live http =
    let s = open_connection now b r in
    let u = r.address (suc r.next) in
    let not_a : (b == a) ≡ false = flip a b false other in
    let same : client_of a s ≡ client_of a r =
      ap (λ o. elim o [ none ↦ no_client | some cd ↦ cd ])
        (get-put_other b a _ r.client_data not_a) in
    let kept : live_timer (client_of a s) ≡ some t = ap live_timer same ∙ live in
    let left : Left b u (now + r.timeout_sec) (t == u) (removefd a (drop_http a s)) = record {
      there =
          has-remove a b s.connections
          ∙ rw other (has-put b b _ r.connections ∙ rw (==_refl b) refl);
      client =
          ap (λ o. live_timer (elim o [ none ↦ no_client | some cd ↦ cd ]))
            (get-put_other a b _ s.client_data other ∙ get-put_same b _ r.client_data);
      timer =
          ap (λ m. Maps.get u m.index)
            (del_client_timer-live (client_of a s) s.timer_manager t kept)
          ∙ del_timer-add_timer t u (now + r.timeout_sec) r.timer_manager;
    } in
    rw (close_connection, http) left
