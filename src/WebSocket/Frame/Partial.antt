-- ===== src/WebSocket/Frame/Partial.antt =====
-- `parseFrames` on a part of a frame.
use Prim.Native.Nat.{bit_and}
use linux_cpp_web_server.Common.{
  ℕ, ◌+◌, ◌^◌, ◌<◌, ◌≤◌, ◌≡◌, refl, ap, Bool, none, some, [], ◌∷◌, ◌++◌, lt→ltb, inl, inr, length,
  length-append, length-drop, take, drop, All, arith, append-nil, ◌≢◌, take-append, drop-append,
  Option-cases,
}
use linux_cpp_web_server.Common.Bytes.{Bytes}
use linux_cpp_web_server.WebSocket.Frame.{
  Header, extended_length, with_mask, parse_header, frame_size, next_frame,
}
use linux_cpp_web_server.WebSocket.Frame.Encode.{IsByte, Key, IsKey, client_frame}
use linux_cpp_web_server.WebSocket.Frame.RoundTrip.{client_frame-Reads}

take-drop-append :
    (m n : ℕ) (buf more : Bytes)
    → m + n ≤ length buf
    → take n (drop m (buf ++ more)) ≡ take n (drop m buf)
take-drop-append m n buf more h =
    rw (drop-append m buf more (omega arith))
      (take-append n (drop m buf) more (omega (arith, length-drop m buf)))

length-pos : (c : Bytes) → c ≢ [] → 0 < length c
length-pos [] h = absurd (h refl)
length-pos (x ∷ c) h = omega arith

extended_length-append :
    (len7 : ℕ) (buf more : Bytes) (r : ℕ × ℕ)
    → 2 ≤ length buf
    → extended_length len7 buf ≡ some r
    → (extended_length len7 (buf ++ more) ≡ some r) × (r.1 ≤ length buf)
unfolding extended_length
extended_length-append len7 buf more r h e =
    ground
      (arith, length-append buf more, take-drop-append 2 2 buf more, take-drop-append 2 8 buf more)

with_mask-append :
    (op : ℕ) (m : Bool) (buf more : Bytes) (n hl : ℕ) (h : Header)
    → hl ≤ length buf
    → with_mask op m buf n hl ≡ some h
    → with_mask op m (buf ++ more) n hl ≡ some h
unfolding with_mask
with_mask-append op m buf more n hl h le e =
    ground (arith, length-append buf more, take-drop-append hl 4 buf more)

-- A header that is read stays the same when more bytes come.
pub parse_header-append :
    (buf more : Bytes) (h : Header)
    → parse_header buf ≡ some h
    → parse_header (buf ++ more) ≡ some h
unfolding parse_header
parse_header-append [] more h e = cc
parse_header-append (a ∷ []) more h e = cc
parse_header-append (a ∷ b ∷ tail) more h e =
    elim (Option-cases (extended_length (bit_and b 0x7f) (a ∷ b ∷ tail))) [
      | inl missing ↦ absurd (cc (rw (parse_header, missing) at e))
      | inr (r, got) ↦
          let (more_got, le) =
            extended_length-append (bit_and b 0x7f) (a ∷ b ∷ tail) more r (omega arith) got in
          rw (parse_header, more_got)
            (with_mask-append _ _ (a ∷ b ∷ tail) more r.0 r.1 h le (rw (parse_header, got) at e))
    ]

-- A part of a frame is never taken for a frame: while bytes are missing, more data is asked for.
pub next_frame-part :
    (op : ℕ) (k : Key) (p a c : Bytes)
    → op < 16
    → IsKey k
    → All IsByte p
    → length p + 14 < 2 ^ 64
    → client_frame op k p ≡ a ++ c
    → c ≢ []
    → next_frame a ≡ none
unfolding next_frame
next_frame-part op k p a c hop hk hp fits whole part = elim (Option-cases (parse_header a)) [
  | inl more ↦ rw (next_frame, more) refl
  | inr (h, found) ↦
      let (h', full, size, _) = client_frame-Reads op k p [] hop hk hp fits in
      let again : parse_header (client_frame op k p ++ []) ≡ some h =
        rw (append-nil, whole) (parse_header-append a c h found) in
      let same : h ≡ h' = cc in
      let short : length a < frame_size h =
        rw same (omega (arith, size, ap length whole, length-append a c, length-pos c part)) in
      rw (next_frame, found, lt→ltb (length a) (frame_size h) short) refl
]
