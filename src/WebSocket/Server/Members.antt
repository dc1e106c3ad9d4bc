-- ===== src/WebSocket/Server/Members.antt =====
-- `std::unordered_set<int>` as a list without repetition, in an order in which it may iterate.
use linux_cpp_web_server.Common.{
  ℕ, Bool, true, false, not, ◌&&◌, ◌||◌, List, [], ◌∷◌, ◌==◌, ◌≡◌, refl, if◌then◌else◌, arith,
  Bool-cases, inl, inr, ==_refl,
}

unfoldable pub member : ℕ → List ℕ → Bool
member fd [] = false
member fd (x ∷ xs) = x == fd || member fd xs

unfoldable pub insert : ℕ → List ℕ → List ℕ
unfolding member
insert fd xs = if member fd xs then xs else fd ∷ xs

unfoldable pub erase : ℕ → List ℕ → List ℕ
erase fd [] = []
erase fd (x ∷ xs) = let rest = erase fd xs in if x == fd then rest else x ∷ rest

unfoldable pub is_none_left : List ℕ → Bool
is_none_left [] = true
is_none_left (x ∷ xs) = false

pub member-insert : (fd g : ℕ) (xs : List ℕ) → member g (insert fd xs) ≡ (fd == g || member g xs)
unfolding insert member
member-insert fd g xs = elim (Bool-cases (member fd xs)) [
  | inl here ↦ elim (Bool-cases (fd == g)) [
    | inl same ↦ let e : fd ≡ g = ground arith in rw (here, ← e, here, ==_refl fd) refl
    | inr other ↦ rw (here, other) refl
  ]
  | inr new ↦ rw new refl
]

pub member-erase :
    (fd g : ℕ) (xs : List ℕ) → member g (erase fd xs) ≡ (not (fd == g) && member g xs)
unfolding erase member
member-erase fd g [] = ground arith
member-erase fd g (x ∷ xs) = ground (arith, member-erase fd g xs)

-- No descriptor stands twice.
abbrev pub Distinct : List ℕ → Type 0
Distinct [] = Unit
Distinct (x ∷ xs) = (member x xs ≡ false) × Distinct xs

pub insert-Distinct : (fd : ℕ) (xs : List ℕ) → Distinct xs → Distinct (insert fd xs)
unfolding insert
insert-Distinct fd xs h = elim (Bool-cases (member fd xs)) [
  | inl here ↦ rw here h
  | inr new ↦ rw new (new, h)
]

pub erase-Distinct : (fd : ℕ) (xs : List ℕ) → Distinct xs → Distinct (erase fd xs)
unfolding erase
erase-Distinct fd [] h = tt
erase-Distinct fd (x ∷ xs) h = elim (Bool-cases (x == fd)) [
  | inl same ↦ rw same (erase-Distinct fd xs h.1)
  | inr other ↦
      rw other
        (let e = member-erase fd x xs in let m = h.0 in ground arith, erase-Distinct fd xs h.1)
]
