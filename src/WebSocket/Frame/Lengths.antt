-- ===== src/WebSocket/Frame/Lengths.antt =====
-- The three forms of a payload's length, as `parseFrames` reads them.
use linux_cpp_web_server.Common.{
  ℕ, ◌/◌, ◌%◌, ◌^◌, ◌<◌, ◌≡◌, refl, some, [], ◌∷◌, ◌++◌, le→ltb, length, arith,
}
use linux_cpp_web_server.Common.Bytes.{Bytes}
use linux_cpp_web_server.WebSocket.Frame.{big_endian, extended_length}

big_endian_two : (n : ℕ) → n < 65536 → big_endian 0 (n / 256 ∷ n % 256 ∷ []) ≡ n
unfolding big_endian
big_endian_two n h = omega arith

abbrev pub long_form : ℕ → Bytes
long_form n =
    n / 2 ^ 56 % 256
    ∷ n / 2 ^ 48 % 256
    ∷ n / 2 ^ 40 % 256
    ∷ n / 2 ^ 32 % 256
    ∷ n / 2 ^ 24 % 256
    ∷ n / 2 ^ 16 % 256
    ∷ n / 2 ^ 8 % 256
    ∷ n % 256
    ∷ []

big_endian_eight : (n : ℕ) → n < 2 ^ 64 → big_endian 0 (long_form n) ≡ n
unfolding big_endian
big_endian_eight n h = omega arith

pub extended_length-short : (n : ℕ) (buf : Bytes) → n < 126 → extended_length n buf ≡ some (n, 2)
unfolding extended_length
extended_length-short n buf h = ground arith

pub extended_length-two :
    (b0 b1 n : ℕ) (tail : Bytes)
    → n < 65536
    → extended_length 126 (b0 ∷ b1 ∷ n / 256 ∷ n % 256 ∷ tail) ≡ some (n, 4)
unfolding extended_length
extended_length-two b0 b1 n tail h =
    rw (le→ltb (length (b0 ∷ b1 ∷ n / 256 ∷ n % 256 ∷ tail)) 4 (omega arith), big_endian_two n h)
      refl

pub extended_length-eight :
    (b0 b1 n : ℕ) (tail : Bytes)
    → n < 2 ^ 64
    → extended_length 127 (b0 ∷ b1 ∷ long_form n ++ tail) ≡ some (n, 10)
unfolding extended_length
extended_length-eight b0 b1 n tail h =
    rw (le→ltb (length (b0 ∷ b1 ∷ long_form n ++ tail)) 10 (omega arith), big_endian_eight n h) refl
