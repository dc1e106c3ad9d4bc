-- ===== src/Common/Bytes.antt =====
-- Byte strings, for `std::string`, `std::string_view` and `std::vector<char>`, with the operations
-- of the standard library that the sources call: `find`, `rfind(s, 0)`, `find_first_of`,
-- `find_last_of`, `substr`, `std::getline`, `std::tolower`, `std::stoul` and `std::to_string`.
pub mod Search
pub mod Numbers
use Prim.Native.Nat.{ℕ, zero, suc, ◌+◌, ◌-◌, ◌*◌, ◌/◌, ◌%◌, ◌^◌, ◌≤◌, ◌<◌}
use Prim.Native.Char.{code}
use Prim.Native.String.{String}
use mathlib.Core.Path.{◌≡◌, refl, ap}
use mathlib.Core.Logic.{◌↔◌, ◌≢◌}
use mathlib.Core.Bool.{Bool, true, false, ◌&&◌, ◌||◌}
use mathlib.Core.Option
use mathlib.Core.Option.{Option, none, some}
use mathlib.Core.List.{List, [], ◌∷◌, ◌++◌, map}
use native.Mathlib.Omega.{arith}
use linux_cpp_web_server.Common.Tests.{ltb, leb, ◌==◌, if◌then◌else◌, Bool-cases, ==_iff}
use linux_cpp_web_server.Common.Lists.{length, take, drop}

abbrev pub Bytes : Type 0
Bytes = List ℕ

-- The bytes of an ASCII literal.
abbrev pub codes : String → Bytes
codes String.[] = []
codes (String.◌∷◌ c s) = code c ∷ codes s

-- The UTF-8 bytes of a literal whose characters lie below U+10000.
abbrev pub utf8_char : ℕ → Bytes → Bytes
utf8_char c rest =
    if ltb c 128
    then c ∷ rest
    else if ltb c 2048
    then (192 + c / 64) ∷ (128 + c % 64) ∷ rest
    else (224 + c / 4096) ∷ (128 + c / 64 % 64) ∷ (128 + c % 64) ∷ rest

unfoldable pub utf8 : String → Bytes
utf8 String.[] = []
utf8 (String.◌∷◌ c s) = utf8_char (code c) (utf8 s)

abbrev pub crlf : Bytes
crlf = 13 ∷ 10 ∷ []

-- Equality of strings.
unfoldable pub bytes_eq : Bytes → Bytes → Bool
bytes_eq [] [] = true
bytes_eq [] (y ∷ ys) = false
bytes_eq (x ∷ xs) [] = false
bytes_eq (x ∷ xs) (y ∷ ys) = x == y && bytes_eq xs ys

unfoldable pub is_empty : Bytes → Bool
is_empty [] = true
is_empty (x ∷ xs) = false

-- `s.rfind(p, 0) == 0`: `s` begins with `p`.
unfoldable pub is_prefix : Bytes → Bytes → Bool
is_prefix [] s = true
is_prefix (p ∷ ps) [] = false
is_prefix (p ∷ ps) (x ∷ xs) = p == x && is_prefix ps xs

-- `s.find(p)`: the first position at which `p` stands in `s`; `none` is `npos`.
unfoldable pub find : Bytes → Bytes → Option ℕ
unfolding is_prefix
find p [] = if is_prefix p [] then some 0 else none
find p (x ∷ xs) =
    let later = find p xs in if is_prefix p (x ∷ xs) then some 0 else Option.map suc later

unfoldable pub contains : Bytes → Bytes → Bool
contains p s = elim (find p s) [ none ↦ false | some i ↦ true ]

-- The position of the first byte that passes a test.
unfoldable pub find_if : (ℕ → Bool) → Bytes → Option ℕ
find_if p [] = none
find_if p (x ∷ xs) = let later = find_if p xs in if p x then some 0 else Option.map suc later

-- `s.find(c)` for one character.
abbrev pub find_char : ℕ → Bytes → Option ℕ
find_char c = find_if (λ x. x == c)

-- `std::getline` until the stream ends: the pieces between delimiters, without an empty last piece.
-- The accumulator is the piece read so far, last byte first.
reverse_onto : Bytes → Bytes → Bytes
reverse_onto [] ys = ys
reverse_onto (x ∷ xs) ys = reverse_onto xs (x ∷ ys)

getlines : ℕ → Bytes → Bytes → List Bytes
unfolding reverse_onto
getlines d [] [] = []
getlines d (x ∷ xs) [] = reverse_onto (x ∷ xs) [] ∷ []
getlines d acc (c ∷ cs) = elim (c == d) [
  | true ↦ reverse_onto acc [] ∷ getlines d [] cs
  | false ↦ getlines d (c ∷ acc) cs
]

unfoldable pub split : Bytes → ℕ → List Bytes
unfolding getlines
split s d = getlines d [] s

unfoldable pub to_lower : ℕ → ℕ
to_lower c = if leb b'A' c && leb c b'Z' then c + 32 else c

-- Equality without regard to the case of ASCII letters.
unfoldable pub same_letters : Bytes → Bytes → Bool
unfolding to_lower bytes_eq
same_letters xs ys = bytes_eq (map to_lower xs) (map to_lower ys)

abbrev pub is_digit : ℕ → Bool
is_digit c = leb b'0' c && leb c b'9'

-- `std::isspace` in the C locale.
abbrev pub is_space : ℕ → Bool
is_space c = c == b' ' || (leb 9 c && leb c 13)

unfoldable pub drop_while : (ℕ → Bool) → Bytes → Bytes
drop_while p [] = []
drop_while p (x ∷ xs) = let rest = drop_while p xs in if p x then rest else x ∷ xs

unfoldable pub take_while : (ℕ → Bool) → Bytes → Bytes
take_while p [] = []
take_while p (x ∷ xs) = if p x then x ∷ take_while p xs else []

-- The longest prefix that ends in a byte which fails the test: trailing bytes that pass are cut.
unfoldable pub drop_while_end : (ℕ → Bool) → Bytes → Bytes
drop_while_end p [] = []
drop_while_end p (x ∷ xs) = elim (drop_while_end p xs) [
  | [] ↦ (if p x then [] else x ∷ [])
  | y ∷ ys ↦ x ∷ y ∷ ys
]

unfoldable pub digits_value : ℕ → Bytes → ℕ
digits_value acc [] = acc
digits_value acc (c ∷ cs) = digits_value (acc * 10 + (c - b'0')) cs

-- The number that a run of digits at the front stands for, if it fits an `unsigned long`.
in_range : ℕ → Option ℕ
in_range n = if ltb n (2 ^ 64) then some n else none

unfoldable pub unsigned_value : Bytes → Option ℕ
unfolding digits_value take_while in_range
unsigned_value s = elim (take_while is_digit s) [
  | [] ↦ none
  | d ∷ ds ↦ in_range (digits_value 0 (d ∷ ds))
]

-- `std::stoul`: white space, a sign, digits; anything may follow. `none` is an exception. A minus
-- sign negates modulo 2 ^ 64.
signed_value : Bytes → Option ℕ
unfolding unsigned_value
signed_value [] = none
signed_value (c ∷ cs) =
    if c == b'-'
    then Option.map (λ n. (2 ^ 64 - n) % 2 ^ 64) (unsigned_value cs)
    else if c == b'+'
    then unsigned_value cs
    else unsigned_value (c ∷ cs)

unfoldable pub stoul : Bytes → Option ℕ
unfolding signed_value drop_while
stoul s = signed_value (drop_while is_space s)

-- `std::to_string` of an unsigned number: fuel above the number of digits.
unfoldable pub digits_of : ℕ → ℕ → Bytes → Bytes
digits_of zero n acc = acc
digits_of (suc f) n acc =
    let rest = digits_of f (n / 10) ((b'0' + n % 10) ∷ acc) in
    if ltb n 10 then (b'0' + n) ∷ acc else rest

unfoldable pub to_string : ℕ → Bytes
unfolding digits_of
to_string n = digits_of (suc n) n []
