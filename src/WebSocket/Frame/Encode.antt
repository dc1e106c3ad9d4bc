-- ===== src/WebSocket/Frame/Encode.antt =====
-- What a client sends: a frame as RFC 6455, section 5.2, describes it, independently of the parser.
use Prim.Native.Nat.{bit_xor}
use linux_cpp_web_server.Common.{
  ℕ, ◌+◌, ◌/◌, ◌%◌, ◌^◌, ◌<◌, [], ◌∷◌, ◌++◌, ltb, if◌then◌else◌, length,
}
use linux_cpp_web_server.Common.Bytes.{Bytes}

abbrev pub IsByte : ℕ → Type 0
IsByte b = b < 256

pub record Key : Type 0 where
  pub k0 : ℕ
  pub k1 : ℕ
  pub k2 : ℕ
  pub k3 : ℕ

pub record IsKey (k : Key) : Type 0 where
  pub byte0 : k.k0 < 256
  pub byte1 : k.k1 < 256
  pub byte2 : k.k2 < 256
  pub byte3 : k.k3 < 256

abbrev pub key_bytes : Key → Bytes
key_bytes k = k.k0 ∷ k.k1 ∷ k.k2 ∷ k.k3 ∷ []

-- The octets of the key are used in turn: after one octet the next comes first.
unfoldable pub mask_with : Key → Bytes → Bytes
mask_with k [] = []
mask_with k (b ∷ bs) =
    bit_xor b k.k0 ∷ mask_with (record { k0 = k.k1; k1 = k.k2; k2 = k.k3; k3 = k.k0 }) bs

-- The length in 7 bits, in 16 or in 64, the shortest form that holds it, with the mask bit.
unfoldable pub client_length : ℕ → Bytes
client_length n =
    if ltb n 126
    then (128 + n) ∷ []
    else if ltb n 65536
    then 254 ∷ n / 256 ∷ n % 256 ∷ []
    else 255
      ∷ n / 2 ^ 56 % 256
      ∷ n / 2 ^ 48 % 256
      ∷ n / 2 ^ 40 % 256
      ∷ n / 2 ^ 32 % 256
      ∷ n / 2 ^ 24 % 256
      ∷ n / 2 ^ 16 % 256
      ∷ n / 2 ^ 8 % 256
      ∷ n % 256
      ∷ []

unfoldable pub client_frame : ℕ → Key → Bytes → Bytes
unfolding client_length mask_with
client_frame opcode key payload =
    (128 + opcode) ∷ client_length (length payload) ++ (key_bytes key ++ mask_with key payload)
