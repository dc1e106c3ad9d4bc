-- ===== src/Log/BlockQueue/Run.antt =====
-- Producers and consumers that take turns under the mutex, in any order.
use linux_cpp_web_server.Common.{
  ◌<◌, ◌≡◌, ap, sym, ◌∙◌, some, List, [], ◌∷◌, ◌++◌, inl, inr, Bool-cases, ltb, ltb→lt,
  append_assoc, append-nil, get_or,
}
use mathlib.Core.Path.{subst}
use linux_cpp_web_server.Log.BlockQueue.{BlockQueue, push, pop}
use linux_cpp_web_server.Log.BlockQueue.Refine.{
  IsValid, contents, pushed, popped, push-IsValid, contents-push, pop-IsValid, contents-pop,
}

module _ {ℓ} {A : Type ℓ} (blank : A) where
  -- `Run q ins outs r`: from `q`, the calls that went through pushed `ins` and popped `outs`, in these
  -- orders, and left `r`.
  pub data Run (q : BlockQueue A) : List A → List A → BlockQueue A → Type ℓ where
    start : Run q [] [] q
    puts :
        {ins outs : List A} {r t : BlockQueue A} (a : A)
        → Run q ins outs r
        → push blank a r ≡ some t
        → Run q (ins ++ a ∷ []) outs t
    takes :
        {ins outs : List A} {r t : BlockQueue A} (a : A)
        → Run q ins outs r
        → pop blank r ≡ some (a, t)
        → Run q ins (outs ++ a ∷ []) t

  abbrev Fifo : BlockQueue A → List A → List A → BlockQueue A → Type ℓ
  Fifo q ins outs r = IsValid blank r × (contents blank q ++ ins ≡ outs ++ contents blank r)

  push_step :
      (q r t : BlockQueue A) (ins outs : List A) (a : A)
      → Fifo q ins outs r
      → push blank a r ≡ some t
      → Fifo q (ins ++ a ∷ []) outs t
  unfolding push
  push_step q r t ins outs a (v, e) h = elim (Bool-cases (ltb r.size r.max_size)) [
    | inr full ↦ absurd (cc (rw (push, full) at h))
    | inl room ↦
        let same : some (pushed blank a r) ≡ some t = rw (push, room) at h in
        let lt : r.size < r.max_size = ltb→lt r.size r.max_size room in
        let joined : contents blank q ++ (ins ++ a ∷ [])
            ≡ outs ++ contents blank (pushed blank a r) =
          sym (append_assoc (contents blank q) ins (a ∷ []))
          ∙ ap (λ l. l ++ a ∷ []) e
          ∙ append_assoc outs (contents blank r) (a ∷ [])
          ∙ ap (◌++◌ outs) (sym (contents-push blank a r v lt)) in
        subst (Fifo q (ins ++ a ∷ []) outs) (cc same) (push-IsValid blank a r v lt, joined)
  ]

  pop_step :
      (q r t : BlockQueue A) (ins outs : List A) (a : A)
      → Fifo q ins outs r
      → pop blank r ≡ some (a, t)
      → Fifo q ins (outs ++ a ∷ []) t
  unfolding pop
  pop_step q r t ins outs a (v, e) h = elim (Bool-cases (ltb 0 r.size)) [
    | inr empty ↦ absurd (cc (rw (pop, empty) at h))
    | inl left ↦
        let same : some (get_or r.array r.front blank, popped blank r) ≡ some (a, t) =
          rw (pop, left) at h in
        let lt : 0 < r.size = ltb→lt 0 r.size left in
        let item : get_or r.array r.front blank ≡ a = cc same in
        let joined : contents blank q ++ ins ≡ (outs ++ a ∷ []) ++ contents blank (popped blank r) =
          e
          ∙ ap (◌++◌ outs)
              (contents-pop blank r v lt ∙ ap (λ x. x ∷ contents blank (popped blank r)) item)
          ∙ sym (append_assoc outs (a ∷ []) (contents blank (popped blank r))) in
        subst (Fifo q ins (outs ++ a ∷ [])) (cc same) (pop-IsValid blank r v lt, joined)
  ]

  -- In every interleaving of pushes and pops what went in, behind what was there, is what came out,
  -- then what is still there: nothing is lost, duplicated or reordered, and the indices stay valid.
  pub Run-Fifo :
      {q r : BlockQueue A} {ins outs : List A}
      → IsValid blank q
      → Run q ins outs r
      → IsValid blank r × (contents blank q ++ ins ≡ outs ++ contents blank r)
  Run-Fifo {q} v start = (v, append-nil (contents blank q))
  Run-Fifo {q} v (puts {ins} {outs} {r} {t} a run e) = push_step q r t ins outs a (Run-Fifo v run) e
  Run-Fifo {q} v (takes {ins} {outs} {r} {t} a run e) = pop_step q r t ins outs a (Run-Fifo v run) e
