-- ===== src/Http/Form.antt =====
-- src/http/HttpParser.cpp: `url_decode` and the decoding of a form's body.
use linux_cpp_web_server.Common.{
  ℕ, ◌+◌, ◌-◌, ◌*◌, ◌%◌, Bool, true, false, ◌&&◌, Option, none, some, List, [], ◌∷◌, ◌==◌, leb,
  if◌then◌else◌, take, drop,
}
use linux_cpp_web_server.Common.Bytes.{Bytes, is_space, find_char, split}
use linux_cpp_web_server.Common.Maps
use linux_cpp_web_server.Common.Maps.{bytes_key}

pub is_hex : ℕ → Bool
is_hex c =
    if leb b'0' c && leb c b'9'
    then true
    else if leb b'A' c && leb c b'F'
    then true
    else leb b'a' c && leb c b'f'

pub hex_value : ℕ → ℕ
hex_value c = if leb c b'9' then c - b'0' else if leb c b'F' then c - b'A' + 10 else c - b'a' + 10

-- `static_cast<char>(std::stoi(hex, nullptr, 16))` of two characters: white space or a sign may come
-- first, and what follows the digits is ignored. `none` is an exception.
pub hex_pair : ℕ → ℕ → Option ℕ
unfolding is_hex hex_value
hex_pair a b =
    if is_hex a
    then some (if is_hex b then hex_value a * 16 + hex_value b else hex_value a)
    else if is_hex b
    then (if is_space a
        then some (hex_value b)
        else if a == b'+'
        then some (hex_value b)
        else if a == b'-'
        then some ((256 - hex_value b) % 256)
        else none)
    else none

pub plus_to_space : ℕ → ℕ
plus_to_space c = if c == b'+' then b' ' else c

pub url_decode : Bytes → Bytes
unfolding hex_pair plus_to_space
url_decode [] = []
url_decode (c ∷ []) = plus_to_space c ∷ []
url_decode (c ∷ a ∷ []) = plus_to_space c ∷ url_decode (a ∷ [])
url_decode (c ∷ a ∷ b ∷ rest) = elim (c == b'%') [
  | false ↦ plus_to_space c ∷ url_decode (a ∷ b ∷ rest)
  | true ↦ elim (hex_pair a b) [
    | none ↦ c ∷ url_decode (a ∷ b ∷ rest)
    | some v ↦ v ∷ url_decode rest
  ]
]

-- One pair of `key=value`; a piece without `=` is skipped.
pub put_pair : List (Bytes × Bytes) → Bytes → List (Bytes × Bytes)
unfolding url_decode
put_pair fields pair = elim (find_char b'=' pair) [
  | none ↦ fields
  | some eq_pos ↦
      Maps.put (url_decode (take eq_pos pair)) (url_decode (drop (eq_pos + 1) pair)) fields
]

pub put_pairs : List (Bytes × Bytes) → List Bytes → List (Bytes × Bytes)
unfolding put_pair
put_pairs fields [] = fields
put_pairs fields (pair ∷ pairs) = put_pairs (put_pair fields pair) pairs

pub handle_form_urlencoded : Bytes → List (Bytes × Bytes) → List (Bytes × Bytes)
unfolding put_pairs
handle_form_urlencoded body fields = put_pairs fields (split body b'&')
