-- ===== src/Timer.antt =====
-- src/Timer.cpp: `TimerManager`. `timers` is the multimap, sorted by the time at which a timer expires,
-- with equal times in the order of insertion; a timer is named by a number that stands for its pointer.
-- `index` maps a timer to its node, which is here the time under which the node was inserted. A timer
-- has one node, as callers add it once. `freed` and `called` record `delete` and the calls of `cb_func`.
pub mod Order
pub mod Tests
use linux_cpp_web_server.Common.{
  ℕ, Bool, true, false, ◌&&◌, Option, none, some, List, [], ◌∷◌, ◌++◌, ◌==◌, ltb, leb,
  if◌then◌else◌, map,
}
use linux_cpp_web_server.Common.Maps
use linux_cpp_web_server.Common.Maps.{nat_key}

pub record TimerManager : Type 0 where
  pub timers : List (ℕ × ℕ)
  pub index : List (ℕ × ℕ)
  pub freed : List ℕ
  pub called : List ℕ

unfoldable pub init : TimerManager
init = record { timers = []; index = []; freed = []; called = [] }

-- `multimap::insert`: behind the nodes with an equal key.
unfoldable pub insert : ℕ → ℕ → List (ℕ × ℕ) → List (ℕ × ℕ)
insert expire timer [] = (expire, timer) ∷ []
insert expire timer ((e, t) ∷ m) =
    let later = insert expire timer m in
    if ltb expire e then (expire, timer) ∷ (e, t) ∷ m else (e, t) ∷ later

-- `multimap::erase` of a timer's node.
unfoldable pub erase : ℕ → List (ℕ × ℕ) → List (ℕ × ℕ)
erase timer [] = []
erase timer ((e, t) ∷ m) = let later = erase timer m in if t == timer then m else (e, t) ∷ later

unfoldable pub add_timer : ℕ → ℕ → TimerManager → TimerManager
add_timer timer expire m = record m {
  timers = insert expire timer m.timers;
  index = Maps.put timer expire m.index;
}

unfoldable pub adjust_timer : ℕ → ℕ → TimerManager → TimerManager
adjust_timer timer new_expire m = elim (Maps.get timer m.index) [
  | none ↦ m
  | some node ↦ record m {
    timers = insert new_expire timer (erase timer m.timers);
    index = Maps.put timer new_expire m.index;
  }
]

unfoldable pub del_timer : ℕ → TimerManager → TimerManager
del_timer timer m = elim (Maps.get timer m.index) [
  | none ↦ m
  | some node ↦ record m {
    timers = erase timer m.timers;
    index = Maps.remove timer m.index;
    freed = timer ∷ m.freed;
  }
]

-- The loop under the lock: the expired timers, in order, and what is left of the two containers.
unfoldable pub expired : ℕ → List (ℕ × ℕ) → List ℕ
expired cur [] = []
expired cur ((e, t) ∷ m) = let later = expired cur m in if leb e cur then t ∷ later else []

unfoldable pub pending : ℕ → List (ℕ × ℕ) → List (ℕ × ℕ)
pending cur [] = []
pending cur ((e, t) ∷ m) = let later = pending cur m in if leb e cur then later else (e, t) ∷ m

unfoldable pub erase_all : List ℕ → List (ℕ × ℕ) → List (ℕ × ℕ)
erase_all [] index = index
erase_all (t ∷ ts) index = erase_all ts (Maps.remove t index)

unfoldable pub append_reversed : List ℕ → List ℕ → List ℕ
append_reversed [] log = log
append_reversed (t ∷ ts) log = append_reversed ts (t ∷ log)

-- `callbacks` says which timers have a `cb_func`; the loop outside the lock calls it and deletes.
unfoldable pub with_callback : (ℕ → Bool) → List ℕ → List ℕ
with_callback callbacks [] = []
with_callback callbacks (t ∷ ts) =
    let later = with_callback callbacks ts in if callbacks t then t ∷ later else later

unfoldable pub tick : (ℕ → Bool) → ℕ → TimerManager → TimerManager
tick callbacks cur m = record {
  timers = pending cur m.timers;
  index = erase_all (expired cur m.timers) m.index;
  freed = append_reversed (expired cur m.timers) m.freed;
  called = append_reversed (with_callback callbacks (expired cur m.timers)) m.called;
}
