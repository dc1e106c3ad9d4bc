-- ===== src/Log/BlockQueue.antt =====
-- include/log/BlockQueue.h: the queue over an array, under its mutex. `wait` lets `push` and `pop` go on
-- only when their condition holds: `none` means that the caller still waits. `blank` stands for the
-- default-constructed items of `m_array(max_size)`. `size_t` sums are taken modulo 2 ^ 64.
pub mod Items
pub mod Refine
pub mod Run
pub mod Tests
use linux_cpp_web_server.Common.{
  ℕ, ◌+◌, ◌-◌, ◌%◌, ◌^◌, Bool, true, false, Option, none, some, List, ltb, ◌==◌, if◌then◌else◌,
  get_or, set, replicate,
}

pub record BlockQueue {ℓ} (A : Type ℓ) : Type ℓ where
  pub front : ℕ
  pub back : ℕ
  pub array : List A
  pub max_size : ℕ
  pub size : ℕ

abbrev pub add_size : ℕ → ℕ → ℕ
add_size a b = (a + b) % 2 ^ 64

module _ {ℓ} {A : Type ℓ} (blank : A) where
  -- `none` is the exception on a size of 0.
  pub init : ℕ → Option (BlockQueue A)
  init max_size =
      if max_size == 0
      then none
      else some (record {
        front = 0;
        back = 0;
        array = replicate max_size blank;
        max_size = max_size;
        size = 0;
      })

  pub push : A → BlockQueue A → Option (BlockQueue A)
  push item q =
      if ltb q.size q.max_size
      then some (record q {
        array = set q.array q.back item;
        back = add_size q.back 1 % q.max_size;
        size = add_size q.size 1;
      })
      else none

  pub pop : BlockQueue A → Option (A × BlockQueue A)
  pop q =
      if ltb 0 q.size
      then some (
        get_or q.array q.front blank,
        record q { front = add_size q.front 1 % q.max_size; size = q.size - 1 },
      )
      else none

  -- `pop` with a time limit: `in_time` is what `wait_for` finds out when the queue stays empty.
  pub pop_timed : BlockQueue A → Bool × Option A × BlockQueue A
  pop_timed q = elim (pop q) [ none ↦ (false, none, q) | some (a, q') ↦ (true, some a, q') ]

  pub is_empty : BlockQueue A → Bool
  is_empty q = q.size == 0

  pub full : BlockQueue A → Bool
  full q = q.size == q.max_size

  pub clear : BlockQueue A → BlockQueue A
  clear q = record q { size = 0; front = 0; back = 0 }
