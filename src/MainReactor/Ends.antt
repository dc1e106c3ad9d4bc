-- ===== src/MainReactor/Ends.antt =====
-- How the loop of src/webserver/WebServer.cpp comes to its end, and what it closes on the way.
use linux_cpp_web_server.Common.{
  ℕ, suc, ◌%◌, ◌^◌, ltb, ◌≡◌, refl, ap, sym, ◌∙◌, Bool, true, false, ◌||◌, Option, none, some, List,
  [], ◌∷◌, ◌++◌, ◌==◌, if◌then◌else◌, inl, inr, Bool-cases, Option-cases, append-nil, append_assoc,
}
use mathlib.Core.Path.{subst}
use linux_cpp_web_server.MainReactor.{
  WebServer, Event, LoopEnd, stopped, waiting, connections, signals, unexpected, sigterm, sigint,
  sigalrm, dispatch, accept_all, on_signal, on_signals, on_event, on_events, event_loop, counted,
  send_to,
}
use linux_cpp_web_server.Sql.{pos}

abbrev ends_server : ℕ → Bool
ends_server sig = sig == sigterm || sig == sigint

-- One of the signals on which the server stops.
unfoldable pub has_stop : List ℕ → Bool
has_stop [] = false
has_stop (sig ∷ sigs) = ends_server sig || has_stop sigs

-- Such a signal is among the events of one `epoll_wait`.
unfoldable pub stops : List Event → Bool
stops [] = false
stops (signals sigs ∷ es) = has_stop sigs || stops es
stops (connections answers ∷ es) = stops es
stops (unexpected fd hangup ∷ es) = stops es

-- The descriptors of which the events report a hangup that the loop does not expect.
unfoldable pub hung_up : List Event → List ℕ
hung_up [] = []
hung_up (unexpected fd true ∷ es) = fd ∷ hung_up es
hung_up (unexpected fd false ∷ es) = hung_up es
hung_up (connections answers ∷ es) = hung_up es
hung_up (signals sigs ∷ es) = hung_up es

-- `epoll_wait` fails at some time, or reports a signal to stop.
unfoldable pub ends_loop : List (Option (List Event)) → Bool
ends_loop [] = false
ends_loop (none ∷ rounds) = true
ends_loop (some es ∷ rounds) = stops es || ends_loop rounds

-- The hangups up to the round with the signal to stop, or to the failure.
unfoldable pub all_hung_up : List (Option (List Event)) → List ℕ
all_hung_up [] = []
all_hung_up (none ∷ rounds) = []
all_hung_up (some es ∷ rounds) =
    let later = all_hung_up rounds in hung_up es ++ (if stops es then [] else later)

-- What `on_events` does to the flag and to the list of closed descriptors.
abbrev Moves : Bool → List ℕ → WebServer → WebServer → Type 0
Moves stop fds w v = (v.stop_server ≡ (w.stop_server || stop)) × (v.closed ≡ w.closed ++ fds)

or_assoc : (a b c : Bool) → ((a || b) || c) ≡ (a || (b || c))
or_assoc true b c = refl
or_assoc false b c = refl

or_false : (a : Bool) → a ≡ (a || false)
or_false true = refl
or_false false = refl

stays : (w : WebServer) → Moves false [] w w
stays w = (or_false w.stop_server, sym (append-nil w.closed))

none-Moves : (w v : WebServer) → w ≡ v → Moves false [] w v
none-Moves w v e = subst (Moves false [] w) e (stays w)

then-Moves :
    (a b : Bool) (xs ys : List ℕ) (u v w : WebServer)
    → Moves a xs u v
    → Moves b ys v w
    → Moves (a || b) (xs ++ ys) u w
then-Moves a b xs ys u v w h k = (
  k.0 ∙ ap (λ s. s || b) h.0 ∙ or_assoc u.stop_server a b,
  k.1 ∙ ap (λ l. l ++ ys) h.1 ∙ append_assoc u.closed xs ys,
)

or_true : (a : Bool) → true ≡ (a || true)
or_true true = refl
or_true false = refl

dispatch-Moves : (connfd : ℕ) (w v : WebServer) → dispatch connfd w ≡ some v → Moves false [] w v
unfolding dispatch counted
dispatch-Moves connfd w v e = elim (Bool-cases (ltb (suc w.round_robin_counter) (2 ^ 31))) [
  | inr full ↦ absurd (cc (rw (dispatch, full) at e))
  | inl fits ↦
      elim (Option-cases
        (send_to (w.round_robin_counter % w.sub_reactor_num) (pos connfd) w.pipes)) [
          | inl no_pipe ↦ absurd (cc (rw (dispatch, fits, no_pipe) at e))
          | inr (pipes, sent) ↦
              let same : counted pipes w ≡ v = cc (rw (dispatch, fits, sent) at e) in
              subst (Moves false [] w) same (stays w)
        ]
]

accept_all-Moves :
    (answers : List (Option ℕ)) (w v : WebServer)
    → accept_all answers w ≡ some v
    → Moves false [] w v
unfolding accept_all
accept_all-Moves [] w v e = none-Moves w v (cc e)
accept_all-Moves (none ∷ rest) w v e = none-Moves w v (cc e)
accept_all-Moves (some connfd ∷ rest) w v e =
    by_dispatch (dispatch connfd w) refl (λ u. accept_all-Moves rest u v)
  where
    by_dispatch :
        (o : Option WebServer)
        → dispatch connfd w ≡ o
        → ((u : WebServer) → accept_all rest u ≡ some v → Moves false [] u v)
        → Moves false [] w v
    by_dispatch none h later = absurd (cc (rw (accept_all, h) at e))
    by_dispatch (some u) h later =
        then-Moves false false [] [] w u v (dispatch-Moves connfd w u h)
          (later u (rw (accept_all, h) at e))

on_signal-Moves : (sig : ℕ) (w : WebServer) → Moves (ends_server sig) [] w (on_signal sig w)
unfolding on_signal
on_signal-Moves sig w = elim (Bool-cases (ends_server sig)) [
  | inl ends ↦ rw (on_signal, ends) (or_true w.stop_server, sym (append-nil w.closed))
  | inr goes ↦ elim (Bool-cases (sig == sigalrm)) [
    | inl rings ↦ rw (on_signal, goes, rings) (stays w)
    | inr other ↦ rw (on_signal, goes, other) (stays w)
  ]
]

on_signals-Moves : (sigs : List ℕ) (w : WebServer) → Moves (has_stop sigs) [] w (on_signals sigs w)
unfolding on_signals has_stop
on_signals-Moves [] w = stays w
on_signals-Moves (sig ∷ sigs) w =
    then-Moves (ends_server sig) (has_stop sigs) [] [] w (on_signal sig w)
      (on_signals sigs (on_signal sig w)) (on_signal-Moves sig w)
      (on_signals-Moves sigs (on_signal sig w))

on_events-Moves :
    (es : List Event) (w v : WebServer)
    → on_events es w ≡ some v
    → Moves (stops es) (hung_up es) w v
unfolding on_events on_event stops hung_up
on_events-Moves [] w v e = none-Moves w v (cc e)
on_events-Moves (signals sigs ∷ es) w v e =
    then-Moves (has_stop sigs) (stops es) [] (hung_up es) w (on_signals sigs w) v
      (on_signals-Moves sigs w) (on_events-Moves es (on_signals sigs w) v e)
on_events-Moves (unexpected fd true ∷ es) w v e =
    then-Moves false (stops es) (fd ∷ []) (hung_up es) w (record w { closed = w.closed ++ fd ∷ [] })
      v (or_false w.stop_server, refl)
      (on_events-Moves es (record w { closed = w.closed ++ fd ∷ [] }) v e)
on_events-Moves (unexpected fd false ∷ es) w v e = on_events-Moves es w v e
on_events-Moves (connections answers ∷ es) w v e =
    by_accept (accept_all answers w) refl (λ u. on_events-Moves es u v)
  where
    by_accept :
        (o : Option WebServer)
        → accept_all answers w ≡ o
        → ((u : WebServer) → on_events es u ≡ some v → Moves (stops es) (hung_up es) u v)
        → Moves (stops es) (hung_up es) w v
    by_accept none h later = absurd (cc (rw (on_events, on_event, h) at e))
    by_accept (some u) h later =
        then-Moves false (stops es) [] (hung_up es) w u v (accept_all-Moves answers w u h)
          (later u (rw (on_events, on_event, h) at e))

event_loop-stopped :
    (rounds : List (Option (List Event))) (w : WebServer)
    → w.stop_server ≡ true
    → event_loop rounds w ≡ some (stopped, w)
unfolding event_loop
event_loop-stopped [] w h = ap (λ b. some (if b then stopped else waiting, w)) h
event_loop-stopped (none ∷ rounds) w h = refl
event_loop-stopped (some es ∷ rounds) w h = simp (event_loop, h) refl

same_closed : (w v : WebServer) → w ≡ v → v.closed ≡ w.closed
same_closed w v e = ap (λ x. x.closed) (sym e)

-- A loop in which `epoll_wait` fails or reports a signal to stop ends, and it has closed the descriptors
-- with a hangup that it came to.
pub event_loop-ends :
    (rounds : List (Option (List Event))) (w v : WebServer) (end : LoopEnd)
    → ends_loop rounds ≡ true
    → w.stop_server ≡ false
    → event_loop rounds w ≡ some (end, v)
    → (end ≡ stopped) × (v.closed ≡ w.closed ++ all_hung_up rounds)
unfolding event_loop ends_loop all_hung_up
event_loop-ends [] w v end stop going e = absurd (cc)
event_loop-ends (none ∷ rounds) w v end stop going e =
    (cc e, same_closed w v (cc e) ∙ sym (append-nil w.closed))
event_loop-ends (some es ∷ rounds) w v end stop going e =
    by_events (on_events es w) refl (λ u. event_loop-ends rounds u v end)
  where
    by_events :
        (o : Option WebServer)
        → on_events es w ≡ o
        → ((u : WebServer)
            → ends_loop rounds ≡ true
            → u.stop_server ≡ false
            → event_loop rounds u ≡ some (end, v)
            → (end ≡ stopped) × (v.closed ≡ u.closed ++ all_hung_up rounds))
        → (end ≡ stopped) × (v.closed ≡ w.closed ++ all_hung_up (some es ∷ rounds))
    by_events none h later = absurd (cc (rw (event_loop, going, h) at e))
    by_events (some u) h later =
        let rest : event_loop rounds u ≡ some (end, v) = rw (event_loop, going, h) at e in
        let (flag, closed) = on_events-Moves es w u h in
        elim (Bool-cases (stops es)) [
          | inl now ↦
              let on : u.stop_server ≡ true = flag ∙ (rw (going, now) refl) in
              let over = sym (event_loop-stopped rounds u on) ∙ rest in
              (
                cc over,
                rw (all_hung_up, now)
                    (same_closed u v (cc over)
                      ∙ closed
                      ∙ ap (λ l. w.closed ++ l) (sym (append-nil (hung_up es)))),
              )
          | inr goes_on ↦
              let off : u.stop_server ≡ false = flag ∙ (rw (going, goes_on) refl) in
              let (done, all) = later u (rw goes_on at stop) off rest in
              (
                done,
                rw (all_hung_up, goes_on)
                    (all
                      ∙ ap (λ l. l ++ all_hung_up rounds) closed
                      ∙ append_assoc w.closed (hung_up es) (all_hung_up rounds)),
              )
        ]
