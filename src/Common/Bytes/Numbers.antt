-- ===== src/Common/Bytes/Numbers.antt =====
-- The range of the numbers that are read from byte strings.
use Prim.Native.Nat.{ℕ, ◌-◌, ◌%◌, ◌^◌, ◌<◌}
use mathlib.Core.Path.{◌≡◌, refl}
use mathlib.Core.Logic.{inl, inr}
use mathlib.Core.Option
use mathlib.Core.Option.{Option, none, some}
use mathlib.Core.List.{[], ◌∷◌}
use native.Mathlib.Omega.{arith}
use linux_cpp_web_server.Common.Tests.{Bool-cases, ltb, ◌==◌, ltb→lt}
use linux_cpp_web_server.Common.Bytes.{
  Bytes, is_digit, is_space, take_while, drop_while, digits_value, in_range, unsigned_value,
  signed_value, stoul,
}

in_range-bound : (m n : ℕ) → in_range m ≡ some n → n < 2 ^ 64
unfolding in_range
in_range-bound m n e = elim (Bool-cases (ltb m (2 ^ 64))) [
  | inl small ↦
      let same : m ≡ n = cc (rw (in_range, small) at e) in
      let le = ltb→lt m (2 ^ 64) small in omega arith
  | inr large ↦ absurd (cc (rw (in_range, large) at e))
]

unsigned_value-bound : (s : Bytes) (n : ℕ) → unsigned_value s ≡ some n → n < 2 ^ 64
unfolding unsigned_value
unsigned_value-bound s n e = by_digits (take_while is_digit s) refl
  where
    by_digits : (ds : Bytes) → take_while is_digit s ≡ ds → n < 2 ^ 64
    by_digits [] h = absurd (cc (rw (unsigned_value, h) at e))
    by_digits (d ∷ ds) h = in_range-bound (digits_value 0 (d ∷ ds)) n (rw (unsigned_value, h) at e)

negated-bound :
    (o : Option ℕ) (n : ℕ) → Option.map (λ m. (2 ^ 64 - m) % 2 ^ 64) o ≡ some n → n < 2 ^ 64
negated-bound none n e = absurd (cc)
negated-bound (some m) n e = let same : (2 ^ 64 - m) % 2 ^ 64 ≡ n = cc e in omega arith

signed_value-bound : (s : Bytes) (n : ℕ) → signed_value s ≡ some n → n < 2 ^ 64
unfolding signed_value
signed_value-bound [] n e = absurd (cc)
signed_value-bound (c ∷ cs) n e = elim (Bool-cases (c == b'-')) [
  | inl minus ↦ negated-bound (unsigned_value cs) n (rw (signed_value, minus) at e)
  | inr other ↦ elim (Bool-cases (c == b'+')) [
    | inl plus ↦ unsigned_value-bound cs n (rw (signed_value, other, plus) at e)
    | inr digit ↦ unsigned_value-bound (c ∷ cs) n (rw (signed_value, other, digit) at e)
  ]
]

-- `std::stoul` returns an `unsigned long`.
pub stoul-bound : (s : Bytes) (n : ℕ) → stoul s ≡ some n → n < 2 ^ 64
unfolding stoul
stoul-bound s n e = signed_value-bound (drop_while is_space s) n e
