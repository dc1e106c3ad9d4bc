-- ===== src/Common/Bytes/Search.antt =====
-- What equality and search of byte strings return.
use Prim.Native.Nat.{ℕ, suc, ◌+◌, ◌≤◌}
use mathlib.Core.Path.{◌≡◌, refl}
use mathlib.Core.Logic.{◌↔◌, ◌≢◌, inl, inr}
use mathlib.Core.Bool.{true}
use mathlib.Core.Option
use mathlib.Core.Option.{Option, none, some}
use mathlib.Core.List.{[], ◌∷◌, ◌++◌}
use native.Mathlib.Omega.{arith}
use linux_cpp_web_server.Common.Tests.{Bool-cases}
use linux_cpp_web_server.Common.Lists.{length, drop, All}
use linux_cpp_web_server.Common.Bytes.{Bytes, crlf, bytes_eq, is_prefix, find}

pub bytes_eq_refl : (xs : Bytes) → bytes_eq xs xs ≡ true
unfolding bytes_eq
bytes_eq_refl [] = refl
bytes_eq_refl (x ∷ xs) = ground (arith, bytes_eq_refl xs)

pub bytes_eq_sound : (xs ys : Bytes) → bytes_eq xs ys ≡ true → xs ≡ ys
unfolding bytes_eq
bytes_eq_sound [] [] h = refl
bytes_eq_sound [] (y ∷ ys) h = cc
bytes_eq_sound (x ∷ xs) [] h = cc
bytes_eq_sound (x ∷ xs) (y ∷ ys) h = ground (arith, bytes_eq_sound xs ys)

pub bytes_eq_iff : (xs ys : Bytes) → (bytes_eq xs ys ≡ true) ↔ (xs ≡ ys)
bytes_eq_iff xs ys = (bytes_eq_sound xs ys, λ e. rw e (bytes_eq_refl ys))

pub is_prefix-append : (p s : Bytes) → is_prefix p (p ++ s) ≡ true
unfolding is_prefix
is_prefix-append [] s = refl
is_prefix-append (x ∷ p) s = ground (arith, is_prefix-append p s)

-- A string that begins with `p` is `p` and what follows.
pub is_prefix_sound : (p s : Bytes) → is_prefix p s ≡ true → s ≡ p ++ drop (length p) s
unfolding is_prefix
is_prefix_sound [] s h = refl
is_prefix_sound (x ∷ p) [] h = cc
is_prefix_sound (x ∷ p) (y ∷ s) h = ground (arith, is_prefix_sound p s)

pub is_prefix-length : (p s : Bytes) → is_prefix p s ≡ true → length p ≤ length s
unfolding is_prefix
is_prefix-length [] s h = omega arith
is_prefix-length (x ∷ p) [] h = cc
is_prefix-length (x ∷ p) (y ∷ s) h = ground (arith, is_prefix-length p s)

map-suc-eq-some :
    (o : Option ℕ) {i : ℕ} → Option.map suc o ≡ some i → (j : ℕ) × (o ≡ some j) × (i ≡ suc j)
map-suc-eq-some none h = cc
map-suc-eq-some (some j) h = (j, refl, cc)

-- A position that `find` returns leaves room for what was looked for.
pub find-le : (p s : Bytes) (i : ℕ) → find p s ≡ some i → i + length p ≤ length s
unfolding find
find-le p [] i h = ground (arith, is_prefix-length p [])
find-le p (x ∷ s) i h = elim (Bool-cases (is_prefix p (x ∷ s))) [
  | inl here ↦ ground (arith, is_prefix-length p (x ∷ s))
  | inr later ↦
      let (j, e, f) = map-suc-eq-some (find p s) (rw later at h) in omega (arith, find-le p s j e)
]

-- What was looked for stands at the position that `find` returns.
pub find_sound : (p s : Bytes) (i : ℕ) → find p s ≡ some i → is_prefix p (drop i s) ≡ true
unfolding find
find_sound p [] i h = ground arith
find_sound p (x ∷ s) i h = elim (Bool-cases (is_prefix p (x ∷ s))) [
  | inl here ↦ let e : i ≡ 0 = ground arith in rw e here
  | inr later ↦
      let (j, e, f) = map-suc-eq-some (find p s) (rw later at h) in rw f (find_sound p s j e)
]

-- No carriage return stands in the string.
abbrev pub NoCr : Bytes → Type 0
NoCr s = All (λ c. c ≢ 13) s

-- The first line break is found behind a line that holds no carriage return.
pub find-crlf-append :
    (line rest : Bytes) → NoCr line → find crlf (line ++ (crlf ++ rest)) ≡ some (length line)
unfolding find is_prefix
find-crlf-append [] rest h = refl
find-crlf-append (x ∷ line) rest h = ground (arith, find-crlf-append line rest h.1)

-- And nothing is found where no carriage return stands.
pub find-crlf-none : (s : Bytes) → NoCr s → find crlf s ≡ none
unfolding find is_prefix
find-crlf-none [] h = refl
find-crlf-none (x ∷ s) h = ground (arith, find-crlf-none s h.1)
