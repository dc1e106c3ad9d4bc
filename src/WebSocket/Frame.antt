-- ===== src/WebSocket/Frame.antt =====
-- src/websocket/WebSocketConn.cpp: `parseFrames`, `pack_text_frame` and `unmaskPayload`.
-- `size_t` and `uint64_t` sums are taken modulo 2 ^ 64. The loop of `parseFrames` takes fuel;
-- `none` means that the fuel ran out.
pub mod Bits
pub mod Encode
mod Lengths
pub mod RoundTrip
pub mod Packed
pub mod Partial
pub mod Stream
pub mod Progress
pub mod Tests
use Prim.Native.Nat.{bit_and, bit_xor}
use linux_cpp_web_server.Common.{
  ℕ, zero, suc, ◌+◌, ◌*◌, ◌/◌, ◌%◌, ◌^◌, Bool, true, false, not, Option, none, some, List, [], ◌∷◌,
  ◌++◌, ltb, ◌==◌, if◌then◌else◌, length, take, drop, get_or,
}
use linux_cpp_web_server.Common.Bytes.{Bytes}

pub record Header : Type 0 where
  pub opcode : ℕ
  pub masked : Bool
  pub mask_key : Bytes
  pub header_len : ℕ
  pub payload_len : ℕ

pub record Frame : Type 0 where
  pub opcode : ℕ
  pub payload : Bytes

-- `payload_len = (payload_len << 8) | byte`: the low byte is free, so `|` is `+`.
pub big_endian : ℕ → Bytes → ℕ
big_endian acc [] = acc
big_endian acc (b ∷ bs) = big_endian ((acc * 256 + b) % 2 ^ 64) bs

-- The payload's length and the length of the header so far; `none` asks for more data.
pub extended_length : ℕ → Bytes → Option (ℕ × ℕ)
extended_length len7 buf =
    if len7 == 126
    then (if ltb (length buf) 4 then none else some (big_endian 0 (take 2 (drop 2 buf)), 4))
    else if len7 == 127
    then (if ltb (length buf) 10 then none else some (big_endian 0 (take 8 (drop 2 buf)), 10))
    else some (len7, 2)

pub with_mask : ℕ → Bool → Bytes → ℕ → ℕ → Option Header
with_mask opcode masked buf payload_len header_len =
    if masked
    then (if ltb (length buf) (header_len + 4)
        then none
        else some (record {
          opcode = opcode;
          masked = masked;
          mask_key = take 4 (drop header_len buf);
          header_len = header_len + 4;
          payload_len = payload_len;
        }))
    else some (record {
      opcode = opcode;
      masked = masked;
      mask_key = 0 ∷ 0 ∷ 0 ∷ 0 ∷ [];
      header_len = header_len;
      payload_len = payload_len;
    })

unfoldable pub parse_header : Bytes → Option Header
parse_header [] = none
parse_header (byte0 ∷ []) = none
parse_header (byte0 ∷ byte1 ∷ tail) =
    elim (extended_length (bit_and byte1 0x7f) (byte0 ∷ byte1 ∷ tail)) [
      | none ↦ none
      | some (payload_len, header_len) ↦
          with_mask (bit_and byte0 0x0f) (not (bit_and byte1 0x80 == 0)) (byte0 ∷ byte1 ∷ tail)
            payload_len header_len
    ]

-- `data[i] ^= mask[i % 4]`, from index `i` on.
pub unmask : Bytes → ℕ → Bytes → Bytes
unmask key i [] = []
unmask key i (b ∷ bs) = bit_xor b (get_or key (i % 4) 0) ∷ unmask key (i + 1) bs

-- `header_len + payload_len`, a `uint64_t`.
pub frame_size : Header → ℕ
frame_size h = (h.header_len + h.payload_len) % 2 ^ 64

pub cut_frame : Header → Bytes → Frame × Bytes
cut_frame h buf =
    let payload = take h.payload_len (drop h.header_len buf) in
    (
      record {
        opcode = h.opcode;
        payload = if h.masked then unmask h.mask_key 0 payload else payload;
      },
      drop (frame_size h) buf,
    )

-- One round of the loop up to the opcode: a frame and what follows it, or `none` for more data.
unfoldable pub next_frame : Bytes → Option (Frame × Bytes)
next_frame buf = elim (parse_header buf) [
  | none ↦ none
  | some h ↦ (if ltb (length buf) (frame_size h) then none else some (cut_frame h buf))
]

-- `parseFrames` over a state that holds the write buffer and whatever the message callback reaches.
-- The result is its return value, the rest of `read_buf_` and the state.
module _ {S : Type 0} (on_message : Bytes → S → S) (append_pong : S → S) where
  unfoldable pub deliver : Frame → S → S
  deliver f s =
      if f.opcode == 0x1
      then on_message f.payload s
      else if f.opcode == 0x9
      then append_pong s
      else s

  unfoldable pub parse_frames : ℕ → Bytes → S → Option (Bool × Bytes × S)
  parse_frames zero buf s = none
  parse_frames (suc fuel) buf s = elim (next_frame buf) [
    | none ↦ some (true, buf, s)
    | some (f, rest) ↦ elim (f.opcode == 0x8) [
      | true ↦ some (false, rest, s)
      | false ↦ parse_frames fuel rest (deliver f s)
    ]
  ]

-- Eight or two bytes of a length, most significant first: `(len >> (i * 8)) & 0xFF`.
pub length_bytes : ℕ → ℕ → Bytes
length_bytes zero len = []
length_bytes (suc i) len = (len / 256 ^ i) % 256 ∷ length_bytes i len

pub pack_length : ℕ → Bytes
unfolding length_bytes
pack_length len =
    if ltb len 126
    then len ∷ []
    else if ltb len 65536
    then 126 ∷ length_bytes 2 len
    else 127 ∷ length_bytes 8 len

pub pack_text_frame : Bytes → Bytes
unfolding pack_length
pack_text_frame payload = 0x81 ∷ pack_length (length payload) ++ payload
