-- ===== src/WebSocket/Frame/RoundTrip.antt =====
-- `parseFrames` on what a client encodes.
use Prim.Native.Nat.{bit_and}
use linux_cpp_web_server.Common.{
  ℕ, zero, suc, ◌+◌, ◌/◌, ◌%◌, ◌^◌, ◌<◌, ◌≡◌, refl, ap, sym, ◌∙◌, true, some, [], ◌∷◌, ◌++◌, ltb,
  le→ltb, ltb→lt, inl, inr, Bool-cases, length, length-append, take, drop, drop_at, take_at,
  drop-drop, get_or, All, arith,
}
use linux_cpp_web_server.Common.Bytes.{Bytes}
use linux_cpp_web_server.WebSocket.Frame.{
  Header, extended_length, with_mask, parse_header, unmask, frame_size, cut_frame, next_frame,
}
use linux_cpp_web_server.WebSocket.Frame.Bits.{
  bit_and_7f, bit_and_0f, bit_and-80_high, bit_xor_twice,
}
use linux_cpp_web_server.WebSocket.Frame.Encode.{
  IsByte, Key, IsKey, key_bytes, mask_with, client_frame,
}
use linux_cpp_web_server.WebSocket.Frame.Lengths.{
  long_form, extended_length-short, extended_length-two, extended_length-eight,
}

length-mask_with : (k : Key) (p : Bytes) → length (mask_with k p) ≡ length p
unfolding mask_with
length-mask_with k [] = refl
length-mask_with k (b ∷ p) =
    ap suc (length-mask_with (record { k0 = k.k1; k1 = k.k2; k2 = k.k3; k3 = k.k0 }) p)

-- The key seen from index `i` on, as the loop of `unmaskPayload` indexes it.
abbrev turned : Key → ℕ → Key
turned k i = record {
  k0 = get_or (key_bytes k) (i % 4) 0;
  k1 = get_or (key_bytes k) ((i + 1) % 4) 0;
  k2 = get_or (key_bytes k) ((i + 2) % 4) 0;
  k3 = get_or (key_bytes k) ((i + 3) % 4) 0;
}

key-lt : (k : Key) (i : ℕ) → IsKey k → get_or (key_bytes k) i 0 < 256
key-lt k zero h = h.byte0
key-lt k (suc zero) h = h.byte1
key-lt k (suc (suc zero)) h = h.byte2
key-lt k (suc (suc (suc zero))) h = h.byte3
key-lt k (suc (suc (suc (suc i)))) h = omega arith

turned-next :
    (k : Key) (i : ℕ)
    → let t = turned k i in record { k0 = t.k1; k1 = t.k2; k2 = t.k3; k3 = t.k0 } ≡ turned k (i + 1)
turned-next k i =
    let e1 : (i + 1 + 1) % 4 ≡ (i + 2) % 4 = omega arith in
    let e2 : (i + 1 + 2) % 4 ≡ (i + 3) % 4 = omega arith in
    let e3 : (i + 1 + 3) % 4 ≡ i % 4 = omega arith in rw (e1, e2, e3)

-- Unmasking from index `i` on undoes masking with the key turned to `i`.
unmask-mask :
    (k : Key) (i : ℕ) (p : Bytes)
    → IsKey k
    → All IsByte p
    → unmask (key_bytes k) i (mask_with (turned k i) p) ≡ p
unfolding unmask mask_with
unmask-mask k i [] hk hp = refl
unmask-mask k i (b ∷ p) hk hp =
    rw (bit_xor_twice b (get_or (key_bytes k) (i % 4) 0) hp.0 (key-lt k (i % 4) hk))
      (ap (◌∷◌ b) (rw (turned-next k i) (unmask-mask k (i + 1) p hk hp.1)))

-- The header of the buffer, whose frame has the given size, and the frame that is read.
abbrev pub Reads : ℕ → Bytes → Bytes → ℕ → Bytes → Type 0
Reads op p rest n buf =
    (h : Header) × (parse_header buf ≡ some h)
    × (frame_size h ≡ n)
    × (next_frame buf ≡ some (record { opcode = op; payload = p }, rest))

-- Once the length is read, the rest of the frame is read back whatever the form of the length.
module _ (op len7 : ℕ) (k : Key) (ext p rest : Bytes) (hl : ℕ) (hop : op < 16) (hlen7 : len7 < 128)
    (hk : IsKey k) (hp : All IsByte p) (hpre : suc (suc (length ext)) ≡ hl)
    (fits : hl + 4 + length p < 2 ^ 64) where
  abbrev body : Bytes
  body = key_bytes k ++ (mask_with k p ++ rest)

  abbrev buf : Bytes
  buf = (128 + op) ∷ (128 + len7) ∷ ext ++ body

  abbrev head : Header
  head = record {
    opcode = op;
    masked = true;
    mask_key = key_bytes k;
    header_len = hl + 4;
    payload_len = length p;
  }

  drop_header : drop hl buf ≡ body
  drop_header = drop_at hl ((128 + op) ∷ (128 + len7) ∷ ext) body hpre

  drop_key : drop (hl + 4) buf ≡ mask_with k p ++ rest
  drop_key = sym (drop-drop hl 4 buf) ∙ (rw drop_header refl)

  length-buf : length buf ≡ hl + 4 + length p + length rest
  length-buf =
      omega
        (arith, length-append ext body, length-append (mask_with k p) rest, length-mask_with k p)

  take_key : take 4 (drop hl buf) ≡ key_bytes k
  take_key = rw drop_header refl

  parse_header-masked :
      extended_length len7 buf ≡ some (length p, hl) → parse_header buf ≡ some head
  unfolding parse_header with_mask
  parse_header-masked e =
      let e7 : bit_and (128 + len7) 0x7f ≡ len7 = omega (arith, bit_and_7f (128 + len7)) in
      let e4 : bit_and (128 + op) 0x0f ≡ op = omega (arith, bit_and_0f (128 + op)) in
      rw
        (
          parse_header,
          e7,
          e,
          e4,
          bit_and-80_high len7 hlen7,
          with_mask,
          le→ltb (length buf) (hl + 4) (omega (arith, length-buf)),
          take_key,
        )
        refl

  cut : frame_size head ≡ hl + 4 + length p
  unfolding frame_size
  cut = omega arith

  drop_payload : drop (hl + 4 + length p) buf ≡ rest
  drop_payload =
      sym (drop-drop (hl + 4) (length p) buf)
      ∙ rw drop_key (drop_at (length p) (mask_with k p) rest (length-mask_with k p))

  take_payload : take (length p) (drop (hl + 4) buf) ≡ mask_with k p
  take_payload = rw drop_key (take_at (length p) (mask_with k p) rest (length-mask_with k p))

  cut_frame-masked : cut_frame head buf ≡ (record { opcode = op; payload = p }, rest)
  unfolding cut_frame
  cut_frame-masked = rw (take_payload, unmask-mask k 0 p hk hp, cut, drop_payload)

  next_frame-masked :
      extended_length len7 buf ≡ some (length p, hl)
      → next_frame buf ≡ some (record { opcode = op; payload = p }, rest)
  unfolding next_frame
  next_frame-masked e =
      rw
        (
          next_frame,
          parse_header-masked e,
          le→ltb (length buf) (frame_size head) (omega (arith, length-buf, cut)),
          cut_frame-masked,
        )
        refl

  masked-Reads :
      (n : ℕ)
      → n ≡ hl + 4 + length p
      → extended_length len7 buf ≡ some (length p, hl)
      → Reads op p rest n buf
  masked-Reads n e x = (head, parse_header-masked x, cut ∙ sym e, next_frame-masked x)

-- A frame that a client encodes, with any bytes behind it, is read whole: its header gives its
-- size, and the opcode, the payload and what follows come back.
pub client_frame-Reads :
    (op : ℕ) (k : Key) (p rest : Bytes)
    → op < 16
    → IsKey k
    → All IsByte p
    → length p + 14 < 2 ^ 64
    → Reads op p rest (length (client_frame op k p)) (client_frame op k p ++ rest)
unfolding client_frame
client_frame-Reads op k p rest hop hk hp fits = elim (Bool-cases (ltb (length p) 126)) [
  | inl short ↦ rw short (
      masked-Reads op (length p) k [] p rest 2 hop (omega (arith, ltb→lt (length p) 126)) hk hp refl
        (omega arith) _ (omega (arith, length-mask_with k p))
        (extended_length-short (length p) _ (ltb→lt (length p) 126 short)))
  | inr long ↦ elim (Bool-cases (ltb (length p) 65536)) [
    | inl medium ↦
        rw (long, medium)
          (masked-Reads op 126 k (length p / 256 ∷ length p % 256 ∷ []) p rest 4 hop (omega arith)
            hk hp refl (omega arith) _ (omega (arith, length-mask_with k p))
            (extended_length-two _ _ (length p) _ (ltb→lt (length p) 65536 medium)))
    | inr large ↦
        rw (long, large)
          (masked-Reads op 127 k (long_form (length p)) p rest 10 hop (omega arith) hk hp refl
            (omega arith) _ (omega (arith, length-mask_with k p))
            (extended_length-eight _ _ (length p) _ (omega arith)))
  ]
]

-- `parseFrames` takes a masked frame of any opcode, key and payload, encoded as RFC 6455 says, with
-- any bytes behind it, as one frame: it gives back the opcode, the unmasked payload and those bytes.
pub next_frame-client_frame :
    (op : ℕ) (k : Key) (p rest : Bytes)
    → op < 16
    → IsKey k
    → All IsByte p
    → length p + 14 < 2 ^ 64
    → next_frame (client_frame op k p ++ rest) ≡ some (record { opcode = op; payload = p }, rest)
next_frame-client_frame op k p rest hop hk hp fits =
    (client_frame-Reads op k p rest hop hk hp fits).3
