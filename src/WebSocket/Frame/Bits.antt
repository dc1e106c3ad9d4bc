-- ===== src/WebSocket/Frame/Bits.antt =====
-- The masks of `parseFrames` on one byte, checked at every byte.
use Prim.Native.Nat.{bit_and, bit_xor}
use linux_cpp_web_server.Common.{
  ℕ, ◌+◌, ◌%◌, ◌<◌, ◌≡◌, refl, true, Bool, ◌==◌, ==_iff, all_below, all_below_sound,
}

seven_table : all_below 256 (λ b. bit_and b 0x7f == b % 128) ≡ true
unfolding all_below
seven_table = refl

pub bit_and_7f : (b : ℕ) → b < 256 → bit_and b 0x7f ≡ b % 128
bit_and_7f b h = (==_iff _ _).0 (all_below_sound 256 _ b seven_table h)

four_table : all_below 256 (λ b. bit_and b 0x0f == b % 16) ≡ true
unfolding all_below
four_table = refl

pub bit_and_0f : (b : ℕ) → b < 256 → bit_and b 0x0f ≡ b % 16
bit_and_0f b h = (==_iff _ _).0 (all_below_sound 256 _ b four_table h)

top_table : all_below 128 (λ b. bit_and b 0x80 == 0) ≡ true
unfolding all_below
top_table = refl

pub bit_and-80_low : (b : ℕ) → b < 128 → bit_and b 0x80 ≡ 0
bit_and-80_low b h = (==_iff _ _).0 (all_below_sound 128 _ b top_table h)

high_table : all_below 128 (λ b. bit_and (128 + b) 0x80 == 128) ≡ true
unfolding all_below
high_table = refl

pub bit_and-80_high : (b : ℕ) → b < 128 → bit_and (128 + b) 0x80 ≡ 128
bit_and-80_high b h = (==_iff _ _).0 (all_below_sound 128 _ b high_table h)

xor_row : ℕ → Bool
xor_row a = all_below 256 (λ k. bit_xor (bit_xor a k) k == a)

xor_table : all_below 256 xor_row ≡ true
unfolding all_below xor_row
xor_table = refl

pub bit_xor_twice : (a k : ℕ) → a < 256 → k < 256 → bit_xor (bit_xor a k) k ≡ a
unfolding xor_row
bit_xor_twice a k ha hk =
    (==_iff _ _).0 (all_below_sound 256 _ k (all_below_sound 256 xor_row a xor_table ha) hk)
