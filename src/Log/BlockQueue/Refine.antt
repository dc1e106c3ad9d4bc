-- ===== src/Log/BlockQueue/Refine.antt =====
-- The invariant of the two indices of include/log/BlockQueue.h, and the list that the array stands for.
use native.Mathlib.Nat.{mod-add-mod, mod-lt}
use linux_cpp_web_server.Common.{
  ℕ, suc, ◌+◌, ◌-◌, ◌%◌, ◌^◌, ◌<◌, ◌≤◌, ◌≡◌, inl, inr, refl, ap, sym, ◌∙◌, some, List, [], ◌∷◌,
  ◌++◌, ltb, ltb→lt, ltb→le, ◌==◌, Bool-cases, length, length-set, length-replicate, get_or, set,
  arith,
}
use mathlib.Core.Option
use linux_cpp_web_server.Log.Fifo
use linux_cpp_web_server.Log.BlockQueue.{BlockQueue, add_size, init, push, pop}
use linux_cpp_web_server.Log.BlockQueue.Items.{items, length-items, items-push, items-cons}

module _ {ℓ} {A : Type ℓ} (blank : A) where
  abbrev pub contents : BlockQueue A → List A
  contents q = items blank q.array q.max_size q.front q.size

  -- What holds between calls: the indices lie in the array, and `back` is where `front` and `size` say.
  pub record IsValid (q : BlockQueue A) : Type ℓ where
    pub room : 0 < q.max_size
    pub small : q.max_size < 2 ^ 64
    pub allocated : q.max_size ≤ length q.array
    pub front_in : q.front < q.max_size
    pub size_in : q.size ≤ q.max_size
    pub back_at : q.back ≡ (q.front + q.size) % q.max_size

  pub init-IsValid :
      (n : ℕ) (q : BlockQueue A)
      → n < 2 ^ 64
      → init blank n ≡ some q
      → IsValid q × (contents q ≡ []) × (q.max_size ≡ n)
  unfolding init
  init-IsValid n q small e = elim (Bool-cases (n == 0)) [
    | inl zero_size ↦ absurd (cc (rw (init, zero_size) at e))
    | inr sized ↦ (ground (arith, length-replicate n blank), ground arith, ground arith)
  ]

  abbrev pub pushed : A → BlockQueue A → BlockQueue A
  pushed a q = record q {
    array = set q.array q.back a;
    back = add_size q.back 1 % q.max_size;
    size = add_size q.size 1;
  }

  pub push-IsValid :
      (a : A) (q : BlockQueue A) → IsValid q → q.size < q.max_size → IsValid (pushed a q)
  push-IsValid a q v lt = record {
    room = v.room;
    small = v.small;
    allocated = rw (length-set q.array q.back a) v.allocated;
    front_in = v.front_in;
    size_in = omega (arith, v.small);
    back_at = at;
  }
    where
      next : add_size q.size 1 ≡ q.size + 1
      next = omega (arith, v.small, lt)

      wrap : add_size q.back 1 ≡ (q.front + q.size) % q.max_size + 1
      wrap = omega (arith, v.small, v.back_at, mod-lt (q.front + q.size) {m = q.max_size} v.room)

      at : add_size q.back 1 % q.max_size ≡ (q.front + add_size q.size 1) % q.max_size
      at =
          ap (λ k. k % q.max_size) wrap
          ∙ mod-add-mod (q.front + q.size) q.max_size 1
          ∙ ap (λ k. k % q.max_size) (omega (arith, next))

  pub contents-push :
      (a : A) (q : BlockQueue A)
      → IsValid q
      → q.size < q.max_size
      → contents (pushed a q) ≡ contents q ++ a ∷ []
  contents-push a q v lt =
      let next : add_size q.size 1 ≡ suc q.size = omega (arith, v.small) in
      ap (items blank (set q.array q.back a) q.max_size q.front) next
      ∙ ap (λ i. items blank (set q.array i a) q.max_size q.front (suc q.size)) v.back_at
      ∙ items-push blank q.array q.max_size q.front q.size a v.allocated v.front_in lt

  abbrev pub popped : BlockQueue A → BlockQueue A
  popped q = record q { front = add_size q.front 1 % q.max_size; size = q.size - 1 }

  pub pop-IsValid : (q : BlockQueue A) → IsValid q → 0 < q.size → IsValid (popped q)
  pop-IsValid q v lt = record {
    room = v.room;
    small = v.small;
    allocated = v.allocated;
    front_in = mod-lt (add_size q.front 1) {m = q.max_size} v.room;
    size_in = omega (arith, v.size_in);
    back_at = at;
  }
    where
      at : q.back ≡ (add_size q.front 1 % q.max_size + (q.size - 1)) % q.max_size
      at =
          v.back_at
          ∙ ap (λ k. k % q.max_size) (omega (arith, v.small, v.front_in, lt))
          ∙ sym (mod-add-mod (add_size q.front 1) q.max_size (q.size - 1))

  pub contents-pop :
      (q : BlockQueue A)
      → IsValid q
      → 0 < q.size
      → contents q ≡ get_or q.array q.front blank ∷ contents (popped q)
  contents-pop q v lt =
      let size : q.size ≡ suc (q.size - 1) = omega arith in
      let next : q.front + 1 ≡ add_size q.front 1 = omega (arith, v.small, v.front_in) in
      ap (items blank q.array q.max_size q.front) size
      ∙ items-cons blank q.array q.max_size q.front (q.size - 1) v.front_in
      ∙ ap
          (λ k.
            get_or q.array q.front blank
            ∷ items blank q.array q.max_size (k % q.max_size) (q.size - 1))
          next

  -- `push` waits exactly when the list is full, and otherwise appends.
  pub push-refines :
      (a : A) (q : BlockQueue A)
      → IsValid q
      → Option.map contents (push blank a q) ≡ Fifo.push q.max_size a (contents q)
  unfolding push Fifo.push
  push-refines a q v = elim (Bool-cases (ltb q.size q.max_size)) [
    | inl room ↦
        rw (room, length-items blank q.array q.max_size q.front q.size, room)
          (ap some (contents-push a q v (ltb→lt q.size q.max_size room)))
    | inr full ↦ rw (full, length-items blank q.array q.max_size q.front q.size, full) refl
  ]

  -- `pop` waits exactly when the list is empty, and otherwise takes the oldest item.
  pub pop-refines :
      (q : BlockQueue A)
      → IsValid q
      → Option.map (λ r. (r.0, contents r.1)) (pop blank q) ≡ Fifo.pop (contents q)
  unfolding pop Fifo.pop
  pop-refines q v = elim (Bool-cases (ltb 0 q.size)) [
    | inl some_left ↦ rw (some_left, contents-pop q v (ltb→lt 0 q.size some_left)) refl
    | inr empty ↦
        let none_left : q.size ≡ 0 = omega (arith, ltb→le 0 q.size empty) in
        rw (empty, none_left) refl
  ]
