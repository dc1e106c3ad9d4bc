-- ===== src/WebSocket/Frame/Progress.antt =====
-- When the loop of `parseFrames` ends.
use Prim.Native.Nat.{bit_and}
use linux_cpp_web_server.Common.{
  ℕ, zero, suc, ◌+◌, ◌-◌, ◌%◌, ◌^◌, ◌<◌, ◌≤◌, ◌≡◌, ◌≢◌, refl, ap, sym, ◌∙◌, Bool, true, false, none,
  some, [], ◌∷◌, ltb, le→ltb, ltb→le, ◌==◌, inl, inr, Bool-cases, Option-cases, length, length-drop,
  drop, drop-drop, arith,
}
use linux_cpp_web_server.Common.Bytes.{Bytes}
use linux_cpp_web_server.WebSocket.Frame.{
  Header, Frame, big_endian, extended_length, with_mask, parse_header, frame_size, cut_frame,
  next_frame, deliver, parse_frames,
}
use linux_cpp_web_server.WebSocket.Frame.Bits.{bit_and_0f}

-- Inversion: what a frame that was cut says of the header and of the rest.
pub next_frame_cases :
    (buf rest : Bytes) (f : Frame)
    → next_frame buf ≡ some (f, rest)
    → (h : Header) × (parse_header buf ≡ some h)
      × (rest ≡ drop (frame_size h) buf)
      × (frame_size h ≤ length buf)
unfolding next_frame cut_frame
next_frame_cases buf rest f e = elim (Option-cases (parse_header buf)) [
  | inl more ↦ absurd (cc (rw (next_frame, more) at e))
  | inr (h, found) ↦ elim (Bool-cases (ltb (length buf) (frame_size h))) [
    | inl short ↦ absurd (cc (rw (next_frame, found, short) at e))
    | inr enough ↦
        let cut : some (cut_frame h buf) ≡ some (f, rest) = rw (next_frame, found, enough) at e in
        (h, found, cc cut, ltb→le (length buf) (frame_size h) enough)
  ]
]

parse_header-length : (buf : Bytes) (h : Header) → parse_header buf ≡ some h → 2 ≤ length buf
unfolding parse_header
parse_header-length [] h e = cc
parse_header-length (a ∷ []) h e = cc
parse_header-length (a ∷ b ∷ tail) h e = omega arith

-- No suffix of the buffer starts with a header whose sizes add up to 0 modulo 2 ^ 64.
abbrev pub NoEmptyFrame : Bytes → Type 0
NoEmptyFrame buf = (k : ℕ) (h : Header) → parse_header (drop k buf) ≡ some h → frame_size h ≢ 0

NoEmptyFrame-drop :
    (n : ℕ) (buf rest : Bytes) → rest ≡ drop n buf → NoEmptyFrame buf → NoEmptyFrame rest
NoEmptyFrame-drop n buf rest same ok k h e = ok (n + k) h (there ∙ e)
  where
    there : parse_header (drop (n + k) buf) ≡ parse_header (drop k rest)
    there = ap parse_header (sym (drop-drop n k buf) ∙ ap (drop k) (sym same))

rest-lt :
    (buf rest : Bytes) (n : ℕ)
    → rest ≡ drop n buf
    → n ≢ 0
    → 2 ≤ length buf
    → length rest < length buf
rest-lt buf rest n same big two = omega (arith, ap length same, length-drop n buf)

module _ {S : Type 0} (on_message : Bytes → S → S) (append_pong : S → S) where
  parse_frames_enough :
      (fuel : ℕ) (buf : Bytes) (s : S)
      → length buf < fuel
      → NoEmptyFrame buf
      → (r : Bool × Bytes × S) × (parse_frames on_message append_pong fuel buf s ≡ some r)
  unfolding parse_frames
  parse_frames_enough zero buf s h ok = elim h [ ]
  parse_frames_enough (suc fuel) buf s h ok = elim (Option-cases (next_frame buf)) [
    | inl more ↦ ((true, buf, s), rw (parse_frames, more) refl)
    | inr ((f, rest), got) ↦ elim (Bool-cases (f.opcode == 0x8)) [
      | inl close ↦ ((false, rest, s), rw (parse_frames, got, close) refl)
      | inr other ↦
          let (hd, parsed, same, fits) = next_frame_cases buf rest f got in
          let big : frame_size hd ≢ 0 = ok 0 hd parsed in
          let shorter : length rest < length buf =
            rest-lt buf rest (frame_size hd) same big (parse_header-length buf hd parsed) in
          let (r, done) =
            parse_frames_enough fuel rest (deliver on_message append_pong f s) (omega arith)
              (NoEmptyFrame-drop (frame_size hd) buf rest same ok) in
          (r, rw (parse_frames, got, other) done)
    ]
  ]

  -- `parseFrames` returns, on fuel above the number of bytes, unless some suffix of the buffer is a
  -- header whose two sizes add up to 0 modulo 2 ^ 64.
  pub parse_frames_total :
      (buf : Bytes) (s : S)
      → NoEmptyFrame buf
      → (r : Bool × Bytes × S) × (parse_frames on_message append_pong (suc (length buf)) buf s
          ≡ some r)
  parse_frames_total buf s ok = parse_frames_enough (suc (length buf)) buf s (omega arith) ok

-- A masked frame that announces 2 ^ 64 - 14 bytes: with its header of 14 bytes the size is 0.
abbrev pub endless : ℕ → ℕ → ℕ → ℕ → ℕ → Bytes → Bytes
endless byte0 k0 k1 k2 k3 rest =
    byte0 ∷ 255 ∷ 255 ∷ 255 ∷ 255 ∷ 255 ∷ 255 ∷ 255 ∷ 255 ∷ 242 ∷ k0 ∷ k1 ∷ k2 ∷ k3 ∷ rest

module _ (byte0 k0 k1 k2 k3 : ℕ) (rest : Bytes) where
  abbrev stuck : Bytes
  stuck = endless byte0 k0 k1 k2 k3 rest

  abbrev stuck_header : Header
  stuck_header = record {
    opcode = bit_and byte0 0x0f;
    masked = true;
    mask_key = k0 ∷ k1 ∷ k2 ∷ k3 ∷ [];
    header_len = 14;
    payload_len = 2 ^ 64 - 14;
  }

  extended_length-endless : extended_length 127 stuck ≡ some (2 ^ 64 - 14, 10)
  unfolding extended_length big_endian
  extended_length-endless = rw (le→ltb (length stuck) 10 (omega arith)) refl

  parse_header-endless : parse_header stuck ≡ some stuck_header
  unfolding parse_header with_mask
  parse_header-endless =
      rw (parse_header, extended_length-endless, with_mask, le→ltb (length stuck) 14 (omega arith))
        refl

  size-endless : frame_size stuck_header ≡ 0
  unfolding frame_size
  size-endless = refl

  rest-endless : (cut_frame stuck_header stuck).1 ≡ stuck
  unfolding cut_frame
  rest-endless = ap (λ n. drop n stuck) size-endless

  opcode-endless : (cut_frame stuck_header stuck).0.opcode ≡ bit_and byte0 0x0f
  unfolding cut_frame
  opcode-endless = refl

  next_frame-endless : next_frame stuck ≡ some ((cut_frame stuck_header stuck).0, stuck)
  unfolding next_frame
  next_frame-endless =
      rw (next_frame, parse_header-endless, size-endless, le→ltb (length stuck) 0 (omega arith))
        (λ i. some ((cut_frame stuck_header stuck).0, rest-endless i))

-- On a buffer that starts with such a frame, of any opcode but `close`, the loop of `parseFrames`
-- runs through any amount of fuel: it takes the same frame again and again.
pub parse_frames-endless :
    {S : Type 0} (on_message : Bytes → S → S) (append_pong : S → S) (byte0 k0 k1 k2 k3 fuel : ℕ)
    (rest : Bytes) (s : S)
    → byte0 < 256
    → byte0 % 16 ≢ 8
    → parse_frames on_message append_pong fuel (endless byte0 k0 k1 k2 k3 rest) s ≡ none
unfolding parse_frames
parse_frames-endless on_message append_pong byte0 k0 k1 k2 k3 zero rest s small other = refl
parse_frames-endless on_message append_pong byte0 k0 k1 k2 k3 (suc fuel) rest s small other =
    let open_code : (bit_and byte0 0x0f == 0x8) ≡ false = ground (arith, bit_and_0f byte0) in
    rw
      (
        parse_frames,
        next_frame-endless byte0 k0 k1 k2 k3 rest,
        opcode-endless byte0 k0 k1 k2 k3 rest,
        open_code,
      )
      (parse_frames-endless on_message append_pong byte0 k0 k1 k2 k3 fuel rest _ small other)
