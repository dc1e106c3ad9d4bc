-- ===== src/WebSocket/Frame/Stream.antt =====
-- A client's frames as one stream of bytes that arrives in pieces.
use linux_cpp_web_server.Common.{
  ℕ, zero, suc, ◌+◌, ◌^◌, ◌<◌, ◌≡◌, ◌≢◌, refl, ◌∙◌, Bool, true, false, Option, none, some, List, [],
  ◌∷◌, ◌++◌, ◌==◌, inl, inr, length, length-append, ◌≤◌, All, arith, append_split,
}
use linux_cpp_web_server.Common.Bytes.{Bytes}
use linux_cpp_web_server.WebSocket.Frame.{Frame, parse_header, next_frame, deliver, parse_frames}
use linux_cpp_web_server.WebSocket.Frame.Encode.{IsByte, Key, IsKey, client_frame}
use linux_cpp_web_server.WebSocket.Frame.RoundTrip.{next_frame-client_frame}
use linux_cpp_web_server.WebSocket.Frame.Partial.{next_frame-part}

pub record Sent : Type 0 where
  pub opcode : ℕ
  pub key : Key
  pub payload : Bytes

-- What a client may send: a four-bit opcode, octets, and a length that the format can hold.
pub record IsSent (f : Sent) : Type 0 where
  pub opcode_small : f.opcode < 16
  pub opcode_open : f.opcode ≢ 8
  pub key_octets : IsKey f.key
  pub octets : All IsByte f.payload
  pub length_small : length f.payload + 14 < 2 ^ 64

abbrev pub frame_of : Sent → Frame
frame_of f = record { opcode = f.opcode; payload = f.payload }

abbrev pub bytes_of : Sent → Bytes
bytes_of f = client_frame f.opcode f.key f.payload

abbrev pub stream : List Sent → Bytes
stream [] = []
stream (f ∷ fs) = bytes_of f ++ stream fs

length-bytes_of : (f : Sent) → 0 < length (bytes_of f)
unfolding client_frame
length-bytes_of f = omega arith

pub length-stream : (fs : List Sent) → length fs ≤ length (stream fs)
length-stream [] = omega arith
length-stream (f ∷ fs) =
    omega (arith, length-append (bytes_of f) (stream fs), length-bytes_of f, length-stream fs)

next_frame-nil : next_frame [] ≡ none
unfolding next_frame parse_header
next_frame-nil = refl

module _ {S : Type 0} (on_message : Bytes → S → S) (append_pong : S → S) where
  abbrev run : ℕ → Bytes → S → Option (Bool × Bytes × S)
  run = parse_frames on_message append_pong

  -- The frames taken in order, each once.
  abbrev pub deliver_all : List Sent → S → S
  deliver_all [] s = s
  deliver_all (f ∷ fs) s = deliver_all fs (deliver on_message append_pong (frame_of f) s)

  run-step :
      (fuel : ℕ) (f : Sent) (rest : Bytes) (s : S)
      → IsSent f
      → run (suc fuel) (bytes_of f ++ rest) s
        ≡ run fuel rest (deliver on_message append_pong (frame_of f) s)
  unfolding parse_frames
  run-step fuel f rest s h =
      let open_code : (f.opcode == 0x8) ≡ false = ground (arith, h.opcode_open) in
      rw
        (
          parse_frames,
          next_frame-client_frame f.opcode f.key f.payload rest h.opcode_small h.key_octets h.octets
              h.length_small,
          open_code,
        )
        refl

  run-wait :
      (fuel : ℕ) (buf : Bytes) (s : S)
      → next_frame buf ≡ none
      → run (suc fuel) buf s ≡ some (true, buf, s)
  unfolding parse_frames
  run-wait fuel buf s e = rw (parse_frames, e) refl

  -- A stream of complete frames is delivered whole and in order, and nothing is left over; fuel above
  -- the number of frames is enough.
  pub parse_frames-stream :
      (fs : List Sent) (fuel : ℕ) (s : S)
      → All IsSent fs
      → length fs < fuel
      → parse_frames on_message append_pong fuel (stream fs) s ≡ some (true, [], deliver_all fs s)
  parse_frames-stream fs zero s h lt = elim lt [ ]
  parse_frames-stream [] (suc fuel) s h lt = run-wait fuel [] s next_frame-nil
  parse_frames-stream (f ∷ fs) (suc fuel) s h lt =
      run-step fuel f (stream fs) s h.0 ∙ parse_frames-stream fs fuel _ h.1 (omega arith)

  -- However the stream is cut in two, the first call keeps the bytes of an unfinished frame, and the
  -- second, on those and the rest of the stream, leaves all frames delivered, in order and once.
  pub parse_frames-cut :
      (fs : List Sent) (a b : Bytes) (fuel fuel' : ℕ) (s : S)
      → All IsSent fs
      → length fs < fuel
      → length fs < fuel'
      → a ++ b ≡ stream fs
      → (rest : Bytes) × (s' : S) × (parse_frames on_message append_pong fuel a s
          ≡ some (true, rest, s'))
        × (parse_frames on_message append_pong fuel' (rest ++ b) s'
            ≡ some (true, [], deliver_all fs s))
  parse_frames-cut fs a b zero fuel' s h lt lt' e = elim lt [ ]
  parse_frames-cut [] [] b (suc fuel) fuel' s h lt lt' e =
      ([], s, run-wait fuel [] s next_frame-nil, rw e (parse_frames-stream [] fuel' s tt lt'))
  parse_frames-cut [] (x ∷ a) b (suc fuel) fuel' s h lt lt' e = cc
  parse_frames-cut (f ∷ fs) a b (suc fuel) fuel' s h lt lt' e =
      elim (append_split a b (bytes_of f) (stream fs) e) [
        | inl (c, whole, part) ↦ (
          a,
          s,
          run-wait fuel a s (
              next_frame-part f.opcode f.key f.payload a c h.0.opcode_small h.0.key_octets
                h.0.octets h.0.length_small whole part),
          rw e (parse_frames-stream (f ∷ fs) fuel' s h lt'),
        )
        | inr (d, same, later) ↦
            let s1 : S = deliver on_message append_pong (frame_of f) s in
            let (rest, s', first, second) =
              parse_frames-cut fs d b fuel fuel' s1 h.1 (omega arith) (omega arith) later in
            (rest, s', rw same (run-step fuel f d s h.0 ∙ first), second)
      ]
