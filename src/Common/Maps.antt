-- ===== src/Common/Maps.antt =====
-- `std::unordered_map` as an association list: `m[k] = v`, `find` and `erase`. A new key goes to the
-- end, so the list's order is one that the container may iterate in.
use Prim.Native.Nat.{ℕ}
use mathlib.Core.Path.{◌≡◌, refl}
use mathlib.Core.Logic.{◌↔◌, inl, inr}
use mathlib.Core.Bool.{Bool, true, false, not, ◌&&◌, ◌||◌}
use mathlib.Core.Option.{Option, none, some}
use mathlib.Core.List.{List, [], ◌∷◌}
use native.Mathlib.Omega.{arith}
use linux_cpp_web_server.Common.Tests.{◌==◌, ==_iff, if◌then◌else◌, Bool-cases}
use linux_cpp_web_server.Common.Bytes.{Bytes, bytes_eq}
use linux_cpp_web_server.Common.Bytes.Search.{bytes_eq_iff}

-- Keys that can be compared.
pub record Eq {ℓ} (K : Type ℓ) : Type ℓ where
  pub beq : K → K → Bool
  pub beq_iff : (a b : K) → (beq a b ≡ true) ↔ (a ≡ b)

instance abbrev pub nat_key : Eq ℕ
nat_key = record { beq = ◌==◌; beq_iff = ==_iff }

instance abbrev pub bytes_key : Eq Bytes
bytes_key = record { beq = bytes_eq; beq_iff = bytes_eq_iff }

module _ {ℓ κ} {K : Type ℓ} {V : Type κ} ⦃e : Eq K⦄ where
  unfoldable pub get : K → List (K × V) → Option V
  get k [] = none
  get k ((j, v) ∷ m) = let later = get k m in if e.beq j k then some v else later

  unfoldable pub put : K → V → List (K × V) → List (K × V)
  put k v [] = (k, v) ∷ []
  put k v ((j, w) ∷ m) = if e.beq j k then (k, v) ∷ m else (j, w) ∷ put k v m

  unfoldable pub remove : K → List (K × V) → List (K × V)
  remove k [] = []
  remove k ((j, w) ∷ m) = let rest = remove k m in if e.beq j k then rest else (j, w) ∷ rest

  unfoldable pub has : K → List (K × V) → Bool
  unfolding get
  has k m = elim (get k m) [ none ↦ false | some v ↦ true ]

  pub get-put :
      (k j : K) (v : V) (m : List (K × V))
      → get j (put k v m) ≡ (if e.beq k j then some v else get j m)
  unfolding get put
  get-put k j v [] = refl
  get-put k j v ((i, w) ∷ m) =
      ground (arith, e.beq_iff k j, e.beq_iff i k, e.beq_iff i j, get-put k j v m)

  pub get-remove :
      (k j : K) (m : List (K × V)) → get j (remove k m) ≡ (if e.beq k j then none else get j m)
  unfolding get remove
  get-remove k j [] = ground arith
  get-remove k j ((i, w) ∷ m) =
      ground (arith, e.beq_iff k j, e.beq_iff i k, e.beq_iff i j, get-remove k j m)

module _ {ℓ κ} {K : Type ℓ} {V : Type κ} ⦃e : Eq K⦄ where
  pub has-get : (k : K) (v : V) (m : List (K × V)) → get k m ≡ some v → has k m ≡ true
  unfolding has
  has-get k v m h = rw (has, h) refl

  pub has-none : (k : K) (m : List (K × V)) → get k m ≡ none → has k m ≡ false
  unfolding has
  has-none k m h = rw (has, h) refl

  pub has-put : (k j : K) (v : V) (m : List (K × V)) → has j (put k v m) ≡ (e.beq k j || has j m)
  unfolding has
  has-put k j v m = elim (Bool-cases (e.beq k j)) [
    | inl same ↦ rw (has, get-put k j v m, same) refl
    | inr other ↦ rw (has, get-put k j v m, other) refl
  ]

  pub has-remove : (k j : K) (m : List (K × V)) → has j (remove k m) ≡ (not (e.beq k j) && has j m)
  unfolding has
  has-remove k j m = elim (Bool-cases (e.beq k j)) [
    | inl same ↦ rw (has, get-remove k j m, same) refl
    | inr other ↦ rw (has, get-remove k j m, other) refl
  ]

pub beq_refl {ℓ} : {K : Type ℓ} ⦃e : Eq K⦄ (k : K) → e.beq k k ≡ true
beq_refl ⦃e⦄ k = (e.beq_iff k k).1 refl
