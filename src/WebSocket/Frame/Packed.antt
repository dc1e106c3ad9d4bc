-- ===== src/WebSocket/Frame/Packed.antt =====
-- `parseFrames` on what `pack_text_frame` packs.
use Prim.Native.Nat.{bit_and}
use linux_cpp_web_server.Common.{
  ℕ, suc, ◌+◌, ◌/◌, ◌%◌, ◌^◌, ◌<◌, ◌≤◌, ◌≡◌, refl, sym, ◌∙◌, false, some, [], ◌∷◌, ◌++◌, ltb,
  le→ltb, ltb→lt, inl, inr, Bool-cases, length, length-append, drop, drop_at, take_at, drop-drop,
  arith,
}
use linux_cpp_web_server.Common.Bytes.{Bytes}
use linux_cpp_web_server.WebSocket.Frame.{
  extended_length, with_mask, parse_header, frame_size, cut_frame, next_frame, pack_length,
  length_bytes, pack_text_frame,
}
use linux_cpp_web_server.WebSocket.Frame.Bits.{bit_and_7f, bit_and-80_low}
use linux_cpp_web_server.WebSocket.Frame.Lengths.{
  long_form, extended_length-short, extended_length-two, extended_length-eight,
}

parse_header-unmasked :
    (len7 n hl : ℕ) (tail : Bytes)
    → len7 < 128
    → extended_length len7 (0x81 ∷ len7 ∷ tail) ≡ some (n, hl)
    → parse_header (0x81 ∷ len7 ∷ tail)
      ≡ some (record {
        opcode = 1;
        masked = false;
        mask_key = 0 ∷ 0 ∷ 0 ∷ 0 ∷ [];
        header_len = hl;
        payload_len = n;
      })
unfolding parse_header with_mask
parse_header-unmasked len7 n hl tail h e =
    let e7 : bit_and len7 0x7f ≡ len7 = omega (arith, bit_and_7f len7) in
    rw (parse_header, e7, e, bit_and-80_low len7 h) refl

-- An unmasked frame is read back once its length is.
next_frame-unmasked :
    (len7 : ℕ) (ext p rest : Bytes) (hl : ℕ)
    → len7 < 128
    → suc (suc (length ext)) ≡ hl
    → hl + length p < 2 ^ 64
    → extended_length len7 (0x81 ∷ len7 ∷ ext ++ (p ++ rest)) ≡ some (length p, hl)
    → next_frame (0x81 ∷ len7 ∷ ext ++ (p ++ rest))
      ≡ some (record { opcode = 1; payload = p }, rest)
unfolding next_frame cut_frame frame_size
next_frame-unmasked len7 ext p rest hl h pre fits e =
    let buf : Bytes = 0x81 ∷ len7 ∷ ext ++ (p ++ rest) in
    let at : drop hl buf ≡ p ++ rest = drop_at hl (0x81 ∷ len7 ∷ ext) (p ++ rest) pre in
    let size : (hl + length p) % 2 ^ 64 ≡ hl + length p = omega arith in
    let all : drop (hl + length p) buf ≡ rest =
      sym (drop-drop hl (length p) buf) ∙ rw at (drop_at (length p) p rest refl) in
    let enough : hl + length p ≤ length buf =
      omega (arith, length-append ext (p ++ rest), length-append p rest) in
    rw
      (
        next_frame,
        parse_header-unmasked len7 (length p) hl (ext ++ (p ++ rest)) h e,
        size,
        le→ltb (length buf) (hl + length p) enough,
        at,
        take_at (length p) p rest refl,
        all,
      )
      refl

-- A frame that the server packs, with any bytes behind it, is read as the text that was packed.
pub next_frame-pack_text_frame :
    (p rest : Bytes)
    → length p + 10 < 2 ^ 64
    → next_frame (pack_text_frame p ++ rest) ≡ some (record { opcode = 1; payload = p }, rest)
unfolding pack_text_frame pack_length length_bytes
next_frame-pack_text_frame p rest fits = elim (Bool-cases (ltb (length p) 126)) [
  | inl short ↦ rw short (
      next_frame-unmasked (length p) [] p rest 2 (omega (arith, ltb→lt (length p) 126)) refl
        (omega arith) (extended_length-short (length p) _ (ltb→lt (length p) 126 short)))
  | inr long ↦ elim (Bool-cases (ltb (length p) 65536)) [
    | inl medium ↦
        let top : length p / 256 % 256 ≡ length p / 256 =
          omega (arith, ltb→lt (length p) 65536 medium) in
        let low : length p / 1 % 256 ≡ length p % 256 = omega arith in
        rw (long, medium, top, low)
          (next_frame-unmasked 126 (length p / 256 ∷ length p % 256 ∷ []) p rest 4 (omega arith)
            refl (omega arith)
            (extended_length-two _ _ (length p) _ (ltb→lt (length p) 65536 medium)))
    | inr large ↦
        let low : length p / 1 % 256 ≡ length p % 256 = omega arith in
        rw (long, large, low)
          (next_frame-unmasked 127 (long_form (length p)) p rest 10 (omega arith) refl (omega arith)
            (extended_length-eight _ _ (length p) _ (omega arith)))
  ]
]
