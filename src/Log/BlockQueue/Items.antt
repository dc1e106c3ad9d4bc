-- ===== src/Log/BlockQueue/Items.antt =====
-- The items that an array holds between two indices that go round.
use native.Mathlib.Nat.{mod-add-mod, mod-lt, mod-eq_of_lt, mod-eq-sub-mod}
use native.Mathlib.Decide.{dec_lt}
use linux_cpp_web_server.Common.{
  ℕ, zero, suc, ◌+◌, ◌-◌, ◌%◌, ◌<◌, ◌≤◌, ◌≡◌, ◌≢◌, refl, ap, ◌∙◌, List, [], ◌∷◌, ◌++◌, length,
  length-append, get_or, set, arith,
}

-- Two offsets below the size lead to two places.
place-ne : (m h i k : ℕ) → h < m → i < k → k < m → (h + k) % m ≢ (h + i) % m
place-ne m h i k hh hi hk = elim (dec_lt (h + k) m) [
  | yes p ↦ omega (arith, mod-eq_of_lt p, mod-eq_of_lt {n = h + i} {m = m} (omega arith))
  | no p ↦ elim (dec_lt (h + i) m) [
    | yes q ↦ omega (
      arith,
      mod-eq_of_lt q,
      mod-eq-sub-mod {n = h + k} {m = m} (omega arith),
      mod-eq_of_lt {n = h + k - m} {m = m} (omega arith),
    )
    | no q ↦ omega (
      arith,
      mod-eq-sub-mod {n = h + i} {m = m} (omega arith),
      mod-eq_of_lt {n = h + i - m} {m = m} (omega arith),
      mod-eq-sub-mod {n = h + k} {m = m} (omega arith),
      mod-eq_of_lt {n = h + k - m} {m = m} (omega arith),
    )
  ]
]

module _ {ℓ} {A : Type ℓ} (blank : A) where
  get_or-set_self : (xs : List A) (i : ℕ) (v : A) → i < length xs → get_or (set xs i v) i blank ≡ v
  get_or-set_self [] i v h = absurd (omega arith)
  get_or-set_self (x ∷ xs) zero v h = refl
  get_or-set_self (x ∷ xs) (suc i) v h = get_or-set_self xs i v (omega arith)

  get_or-set_ne :
      (xs : List A) (i j : ℕ) (v : A) → i ≢ j → get_or (set xs i v) j blank ≡ get_or xs j blank
  get_or-set_ne [] i j v h = refl
  get_or-set_ne (x ∷ xs) zero zero v h = absurd (h refl)
  get_or-set_ne (x ∷ xs) zero (suc j) v h = refl
  get_or-set_ne (x ∷ xs) (suc i) zero v h = refl
  get_or-set_ne (x ∷ xs) (suc i) (suc j) v h = get_or-set_ne xs i j v (λ e. h (ap suc e))

  -- The first `n` items behind index `h`, oldest first.
  abbrev pub items : List A → ℕ → ℕ → ℕ → List A
  items xs m h zero = []
  items xs m h (suc n) = items xs m h n ++ get_or xs ((h + n) % m) blank ∷ []

  pub length-items : (xs : List A) (m h n : ℕ) → length (items xs m h n) ≡ n
  length-items xs m h zero = refl
  length-items xs m h (suc n) = omega (
    arith,
    length-append (items xs m h n) (get_or xs ((h + n) % m) blank ∷ []),
    length-items xs m h n,
  )

  -- Writing behind the items leaves them alone.
  items-set :
      (xs : List A) (m h n k : ℕ) (v : A)
      → h < m
      → n ≤ k
      → k < m
      → items (set xs ((h + k) % m) v) m h n ≡ items xs m h n
  items-set xs m h zero k v hh le lt = refl
  items-set xs m h (suc n) k v hh le lt =
      rw
        (
          items-set xs m h n k v hh (omega arith) lt,
          get_or-set_ne xs ((h + k) % m) ((h + n) % m) v (place-ne m h n k hh le lt),
        )
        refl

  -- Writing at the next place appends.
  pub items-push :
      (xs : List A) (m h n : ℕ) (v : A)
      → m ≤ length xs
      → h < m
      → n < m
      → items (set xs ((h + n) % m) v) m h (suc n) ≡ items xs m h n ++ v ∷ []
  items-push xs m h n v room hh lt =
      rw
        (
          items-set xs m h n n v hh (omega arith) lt,
          get_or-set_self xs ((h + n) % m) v (omega (arith, mod-lt (h + n) {m = m})),
        )
        refl

  -- The oldest item stands at `h`, and the others follow from the next index on.
  pub items-cons :
      (xs : List A) (m h n : ℕ)
      → h < m
      → items xs m h (suc n) ≡ get_or xs h blank ∷ items xs m ((h + 1) % m) n
  items-cons xs m h zero hh =
      let e : (h + 0) % m ≡ h = ap (λ k. k % m) (omega arith) ∙ mod-eq_of_lt hh in rw e refl
  items-cons xs m h (suc n) hh =
      let e : ((h + 1) % m + n) % m ≡ (h + suc n) % m =
        mod-add-mod (h + 1) m n ∙ ap (λ k. k % m) (omega arith) in
      rw e (ap (λ l. l ++ get_or xs ((h + suc n) % m) blank ∷ []) (items-cons xs m h n hh))
