-- ===== src/Timer/Order.antt =====
-- The order of the multimap in src/Timer.cpp, and `tick`.
use linux_cpp_web_server.Common.{
  ℕ, ◌≤◌, ◌<◌, ◌≡◌, refl, ap, sym, ◌∙◌, Bool, true, false, ◌||◌, none, List, [], ◌∷◌, ◌++◌, ◌==◌,
  ltb, leb, if◌then◌else◌, map, append_assoc, arith, Bool-cases, Option-cases, inl, inr, All,
}
use linux_cpp_web_server.Common.Maps
use linux_cpp_web_server.Common.Maps.{nat_key, get-remove}
use linux_cpp_web_server.Timer.{
  TimerManager, init, insert, erase, add_timer, adjust_timer, del_timer, expired, pending,
  erase_all, append_reversed, with_callback, tick,
}

-- Times do not decrease.
abbrev pub Sorted : List (ℕ × ℕ) → Type 0
Sorted [] = Unit
Sorted ((e, t) ∷ m) = All (λ n. e ≤ n.0) m × Sorted m

insert-All :
    (b expire timer : ℕ) (m : List (ℕ × ℕ))
    → b ≤ expire
    → All (λ n. b ≤ n.0) m
    → All (λ n. b ≤ n.0) (insert expire timer m)
unfolding insert
insert-All b expire timer [] h k = (h, tt)
insert-All b expire timer ((e, t) ∷ m) h k = elim (Bool-cases (ltb expire e)) [
  | inl here ↦ rw here (h, k)
  | inr later ↦ rw later (k.0, insert-All b expire timer m h k.1)
]

All-le : (a b : ℕ) (m : List (ℕ × ℕ)) → a ≤ b → All (λ n. b ≤ n.0) m → All (λ n. a ≤ n.0) m
All-le a b [] h k = tt
All-le a b ((e, t) ∷ m) h k = (omega (arith, k.0), All-le a b m h k.1)

insert-Sorted : (expire timer : ℕ) (m : List (ℕ × ℕ)) → Sorted m → Sorted (insert expire timer m)
unfolding insert
insert-Sorted expire timer [] h = (tt, tt)
insert-Sorted expire timer ((e, t) ∷ m) h = elim (Bool-cases (ltb expire e)) [
  | inl here ↦ let le : expire ≤ e = ground arith in rw here ((le, All-le expire e m le h.0), h)
  | inr later ↦
      let le : e ≤ expire = ground arith in
      rw later (insert-All e expire timer m le h.0, insert-Sorted expire timer m h.1)
]

erase-All :
    (b timer : ℕ) (m : List (ℕ × ℕ)) → All (λ n. b ≤ n.0) m → All (λ n. b ≤ n.0) (erase timer m)
unfolding erase
erase-All b timer [] k = tt
erase-All b timer ((e, t) ∷ m) k = elim (Bool-cases (t == timer)) [
  | inl here ↦ rw here (k.1)
  | inr later ↦ rw later (k.0, erase-All b timer m k.1)
]

erase-Sorted : (timer : ℕ) (m : List (ℕ × ℕ)) → Sorted m → Sorted (erase timer m)
unfolding erase
erase-Sorted timer [] h = tt
erase-Sorted timer ((e, t) ∷ m) h = elim (Bool-cases (t == timer)) [
  | inl here ↦ rw here (h.1)
  | inr later ↦ rw later (erase-All e timer m h.0, erase-Sorted timer m h.1)
]

pending-Sorted : (cur : ℕ) (m : List (ℕ × ℕ)) → Sorted m → Sorted (pending cur m)
unfolding pending
pending-Sorted cur [] h = tt
pending-Sorted cur ((e, t) ∷ m) h = elim (Bool-cases (leb e cur)) [
  | inl due ↦ rw due (pending-Sorted cur m h.1)
  | inr not_due ↦ rw not_due h
]

-- The calls of the manager, in any order; a timer is added when the manager does not have it.
pub data Run : TimerManager → Type 0 where
  start : Run init
  adds :
      (m : TimerManager) (timer expire : ℕ)
      → Maps.get timer m.index ≡ none
      → Run m
      → Run (add_timer timer expire m)
  adjusts : (m : TimerManager) (timer expire : ℕ) → Run m → Run (adjust_timer timer expire m)
  deletes : (m : TimerManager) (timer : ℕ) → Run m → Run (del_timer timer m)
  ticks : (m : TimerManager) (callbacks : ℕ → Bool) (cur : ℕ) → Run m → Run (tick callbacks cur m)

Run-Sorted : (m : TimerManager) → Run m → Sorted m.timers
unfolding init add_timer adjust_timer del_timer tick
Run-Sorted _ start = tt
Run-Sorted _ (adds m timer expire new r) = insert-Sorted expire timer m.timers (Run-Sorted m r)
Run-Sorted _ (adjusts m timer expire r) = elim (Option-cases (Maps.get timer m.index)) [
  | inl e ↦ rw (adjust_timer, e) (Run-Sorted m r)
  | inr (node, e) ↦
      rw (adjust_timer, e)
        (insert-Sorted expire timer (erase timer m.timers)
          (erase-Sorted timer m.timers (Run-Sorted m r)))
]
Run-Sorted _ (deletes m timer r) = elim (Option-cases (Maps.get timer m.index)) [
  | inl e ↦ rw (del_timer, e) (Run-Sorted m r)
  | inr (node, e) ↦ rw (del_timer, e) (erase-Sorted timer m.timers (Run-Sorted m r))
]
Run-Sorted _ (ticks m callbacks cur r) = pending-Sorted cur m.timers (Run-Sorted m r)

-- A timer of a list, by the test of its time.
abbrev pub due : (ℕ → Bool) → List (ℕ × ℕ) → List (ℕ × ℕ)
due test [] = []
due test ((e, t) ∷ m) = let later = due test m in if test e then (e, t) ∷ later else later

none_due :
    (b cur : ℕ) (m : List (ℕ × ℕ)) → cur < b → All (λ n. b ≤ n.0) m → due (λ e. leb e cur) m ≡ []
none_due b cur [] h k = refl
none_due b cur ((e, t) ∷ m) h k =
    let late : leb e cur ≡ false = (let le = k.0 in ground arith) in
    rw late (none_due b cur m h k.1)

late_left :
    (b cur : ℕ) (m : List (ℕ × ℕ)) → cur < b → All (λ n. b ≤ n.0) m → due (λ e. ltb cur e) m ≡ m
late_left b cur [] h k = refl
late_left b cur ((e, t) ∷ m) h k =
    let late : ltb cur e ≡ true = (let le = k.0 in ground arith) in
    rw late (ap (◌∷◌ (e, t)) (late_left b cur m h k.1))

expired-due :
    (cur : ℕ) (m : List (ℕ × ℕ))
    → Sorted m
    → expired cur m ≡ map (λ n. n.1) (due (λ e. leb e cur) m)
unfolding expired
expired-due cur [] h = refl
expired-due cur ((e, t) ∷ m) h = elim (Bool-cases (leb e cur)) [
  | inl now ↦ rw now (ap (◌∷◌ t) (expired-due cur m h.1))
  | inr late ↦
      let lt : cur < e = ground arith in
      rw late (sym (ap (map (λ n. n.1)) (none_due e cur m lt h.0)))
]

pending-due : (cur : ℕ) (m : List (ℕ × ℕ)) → Sorted m → pending cur m ≡ due (λ e. ltb cur e) m
unfolding pending
pending-due cur [] h = refl
pending-due cur ((e, t) ∷ m) h = elim (Bool-cases (leb e cur)) [
  | inl now ↦ let soon : ltb cur e ≡ false = ground arith in rw (now, soon) (pending-due cur m h.1)
  | inr late ↦
      let lt : cur < e = ground arith in
      let later : ltb cur e ≡ true = ground arith in
      rw (late, later) (sym (ap (◌∷◌ (e, t)) (late_left e cur m lt h.0)))
]

-- The timers of a manager whose time is `cur` or earlier, in the order of the map.
abbrev pub gone : ℕ → TimerManager → List ℕ
gone cur m = map (λ n. n.1) (due (λ e. leb e cur) m.timers)

abbrev pub mem : ℕ → List ℕ → Bool
mem t [] = false
mem t (u ∷ ts) = u == t || mem t ts

abbrev pub reversed : List ℕ → List ℕ
reversed [] = []
reversed (t ∷ ts) = reversed ts ++ t ∷ []

-- The timers of a list of which the test says yes.
abbrev pub those : (ℕ → Bool) → List ℕ → List ℕ
those test [] = []
those test (t ∷ ts) = if test t then t ∷ those test ts else those test ts

or_true : (b : Bool) → (b || true) ≡ true
or_true true = refl
or_true false = refl

erase_all-get :
    (t : ℕ) (ts : List ℕ) (index : List (ℕ × ℕ))
    → Maps.get t (erase_all ts index) ≡ (if mem t ts then none else Maps.get t index)
unfolding erase_all
erase_all-get t [] index = refl
erase_all-get t (u ∷ ts) index = elim (Bool-cases (mem t ts)) [
  | inl later ↦ rw (erase_all-get t ts (Maps.remove u index), later, or_true (u == t)) refl
  | inr once ↦ elim (Bool-cases (u == t)) [
    | inl here ↦
        rw (erase_all-get t ts (Maps.remove u index), once, get-remove u t index, here) refl
    | inr other ↦
        rw (erase_all-get t ts (Maps.remove u index), once, get-remove u t index, other) refl
  ]
]

append_reversed-reversed : (ts log : List ℕ) → append_reversed ts log ≡ reversed ts ++ log
unfolding append_reversed
append_reversed-reversed [] log = refl
append_reversed-reversed (t ∷ ts) log =
    append_reversed-reversed ts (t ∷ log) ∙ sym (append_assoc (reversed ts) (t ∷ []) log)

with_callback-those :
    (callbacks : ℕ → Bool) (ts : List ℕ) → with_callback callbacks ts ≡ those callbacks ts
unfolding with_callback
with_callback-those callbacks [] = refl
with_callback-those callbacks (t ∷ ts) = elim (Bool-cases (callbacks t)) [
  | inl has ↦ rw (has, with_callback-those callbacks ts) refl
  | inr has ↦ rw (has, with_callback-those callbacks ts) refl
]

-- What a tick at the time `cur` has to leave, `gone` the timers whose time is `cur` or earlier in the
-- order of their times: the others stay, and a timer that is gone is in neither container; the
-- callbacks of those that have one were called and all of them deleted, in that order, behind what was
-- called and deleted before (the logs have their latest entry first).
pub record Ticked (callbacks : ℕ → Bool) (cur : ℕ) (m after : TimerManager) : Type 0 where
  pub stay : after.timers ≡ due (λ e. ltb cur e) m.timers
  pub found :
      (t : ℕ) → Maps.get t after.index ≡ (if mem t (gone cur m) then none else Maps.get t m.index)
  pub calls : after.called ≡ reversed (those callbacks (gone cur m)) ++ m.called
  pub frees : after.freed ≡ reversed (gone cur m) ++ m.freed

-- After any calls of the manager, in which a timer is added only while the manager does not have it, a
-- `tick` at the time `cur` takes exactly the timers whose time is `cur` or earlier, in the order of the
-- map, out of both containers, leaves exactly the others in both, calls the callbacks of those that
-- have one, and deletes all of them, each in the order of the map.
pub tick-exact :
    (m : TimerManager) (callbacks : ℕ → Bool) (cur : ℕ)
    → Run m
    → Ticked callbacks cur m (tick callbacks cur m)
unfolding tick
tick-exact m callbacks cur r =
    let taken = expired-due cur m.timers (Run-Sorted m r) in
    record {
      stay = pending-due cur m.timers (Run-Sorted m r);
      found = λ t.
          erase_all-get t (expired cur m.timers) m.index
          ∙ ap (λ ts. if mem t ts then none else Maps.get t m.index) taken;
      calls =
          append_reversed-reversed (with_callback callbacks (expired cur m.timers)) m.called
          ∙ ap (λ ts. reversed ts ++ m.called)
              (with_callback-those callbacks (expired cur m.timers) ∙ ap (those callbacks) taken);
      frees =
          append_reversed-reversed (expired cur m.timers) m.freed
          ∙ ap (λ ts. reversed ts ++ m.freed) taken;
    }
