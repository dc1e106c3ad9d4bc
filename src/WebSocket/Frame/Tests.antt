-- ===== src/WebSocket/Frame/Tests.antt =====
-- Frames with concrete bytes.
use linux_cpp_web_server.Common.{
  zero, suc, ◌≡◌, refl, Bool, true, false, none, some, List, [], ◌∷◌, ◌++◌, arith,
}
use linux_cpp_web_server.Common.Bytes.{Bytes, codes}
use linux_cpp_web_server.WebSocket.Frame.{
  extended_length, with_mask, parse_header, frame_size, next_frame, deliver, parse_frames,
  length_bytes, pack_length, pack_text_frame,
}
use linux_cpp_web_server.WebSocket.Frame.Encode.{Key, IsKey, client_frame, client_length, mask_with}
use linux_cpp_web_server.WebSocket.Frame.RoundTrip.{next_frame-client_frame}
use linux_cpp_web_server.WebSocket.Frame.Stream.{
  Sent, IsSent, bytes_of, deliver_all, parse_frames-cut,
}
use linux_cpp_web_server.WebSocket.Frame.Progress.{
  NoEmptyFrame, endless, parse_frames_total, parse_frames-endless,
}

abbrev keep : Bytes → List Bytes → List Bytes
keep msg log = log ++ msg ∷ []

abbrev no_pong : List Bytes → List Bytes
no_pong log = log

abbrev key : Key
key = record { k0 = 1; k1 = 2; k2 = 3; k3 = 255 }

abbrev hi : Sent
hi = record { opcode = 1; key = key; payload = codes "Hi" }

key-IsKey : IsKey key
key-IsKey = record {
  byte0 = omega arith;
  byte1 = omega arith;
  byte2 = omega arith;
  byte3 = omega arith;
}

hi-IsSent : IsSent hi
hi-IsSent = record {
  opcode_small = omega arith;
  opcode_open = λ e. omega arith;
  key_octets = key-IsKey;
  octets = (omega arith, (omega arith, tt));
  length_small = omega arith;
}

-- The bytes that a browser sends for `Hi`.
hi_bytes : bytes_of hi ≡ 129 ∷ 130 ∷ 1 ∷ 2 ∷ 3 ∷ 255 ∷ 73 ∷ 107 ∷ []
unfolding client_frame client_length mask_with
hi_bytes = refl

packed_bytes : pack_text_frame (codes "Hi") ≡ 129 ∷ 2 ∷ 72 ∷ 105 ∷ []
unfolding pack_text_frame pack_length length_bytes
packed_bytes = refl

delivered : deliver_all keep no_pong (hi ∷ hi ∷ []) [] ≡ codes "Hi" ∷ codes "Hi" ∷ []
unfolding deliver
delivered = refl

parse_frames-cut_example :
    (rest : Bytes) × (s' : List Bytes) × (parse_frames keep no_pong 3 (129 ∷ 130 ∷ 1 ∷ []) []
      ≡ some (true, rest, s'))
    × (parse_frames keep no_pong 3 (rest ++ 2 ∷ 3 ∷ 255 ∷ 73 ∷ 107 ∷ []) s'
        ≡ some (true, [], deliver_all keep no_pong (hi ∷ []) []))
unfolding client_frame client_length mask_with
parse_frames-cut_example =
    parse_frames-cut keep no_pong (hi ∷ []) (129 ∷ 130 ∷ 1 ∷ []) (2 ∷ 3 ∷ 255 ∷ 73 ∷ 107 ∷ []) 3 3
      [] (hi-IsSent, tt) (omega arith) (omega arith) refl

next_frame-client_frame_example :
    next_frame (client_frame 1 key (codes "Hi") ++ 7 ∷ [])
    ≡ some (record { opcode = 1; payload = codes "Hi" }, 7 ∷ [])
next_frame-client_frame_example =
    next_frame-client_frame 1 key (codes "Hi") (7 ∷ []) (omega arith) key-IsKey
      (omega arith, (omega arith, tt)) (omega arith)

-- An unmasked text frame without a payload.
abbrev bare : Bytes
bare = 129 ∷ 0 ∷ []

bare-NoEmptyFrame : NoEmptyFrame bare
unfolding parse_header with_mask extended_length frame_size
bare-NoEmptyFrame zero h e z =
    let same : record { opcode = 1; masked = false; mask_key = []; header_len = 2; payload_len = 0 }
        ≡ h =
      cc in
    let size : frame_size h ≡ 2 = rw (← same) refl in omega (arith, size, z)
bare-NoEmptyFrame (suc zero) h e z = cc
bare-NoEmptyFrame (suc (suc zero)) h e z = cc
bare-NoEmptyFrame (suc (suc (suc k))) h e z = cc

parse_frames_total_example :
    (r : Bool × Bytes × List Bytes) × (parse_frames keep no_pong 3 bare [] ≡ some r)
parse_frames_total_example = parse_frames_total keep no_pong bare [] bare-NoEmptyFrame

parse_frames-endless_example : parse_frames keep no_pong 1000 (endless 129 1 2 3 4 []) [] ≡ none
parse_frames-endless_example =
    parse_frames-endless keep no_pong 129 1 2 3 4 1000 [] [] (omega arith) (λ e. omega arith)
