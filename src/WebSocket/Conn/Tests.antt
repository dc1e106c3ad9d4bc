-- ===== src/WebSocket/Conn/Tests.antt =====
-- A connection with concrete bytes.
use linux_cpp_web_server.Common.{
  ◌≡◌, ◌↔◌, refl, true, false, some, List, [], ◌∷◌, ◌++◌, arith, if◌then◌else◌,
}
use linux_cpp_web_server.Common.Bytes.{Bytes, codes, is_empty}
use linux_cpp_web_server.Tools.{read, write, close}
use linux_cpp_web_server.WebSocket.Frame.{parse_frames}
use linux_cpp_web_server.WebSocket.Frame.Encode.{client_frame, client_length, mask_with}
use linux_cpp_web_server.WebSocket.Frame.Stream.{Sent, IsSent, deliver_all}
use linux_cpp_web_server.WebSocket.Conn.{
  WebSocketConn, again, sent, would_block, append_pong, call_back, handle_read, handle_write,
  received,
}
use linux_cpp_web_server.WebSocket.Conn.Delivery.{
  handle_write-keeps, handle_read-delivers, send_all, send_all-read_back, collect,
}

abbrev log_message : Bytes → Bytes × List Bytes → Bytes × List Bytes
log_message msg (wb, log) = (wb, log ++ msg ∷ [])

abbrev hi : Sent
hi = record { opcode = 1; key = record { k0 = 1; k1 = 2; k2 = 3; k3 = 255 }; payload = codes "Hi" }

hi-IsSent : IsSent hi
hi-IsSent = record {
  opcode_small = omega arith;
  opcode_open = λ e. omega arith;
  key_octets = record {
    byte0 = omega arith;
    byte1 = omega arith;
    byte2 = omega arith;
    byte3 = omega arith;
  };
  octets = (omega arith, (omega arith, tt));
  length_small = omega arith;
}

abbrev open_conn : WebSocketConn
open_conn = record {
  fd = 5;
  username = codes "ann";
  read_buf = [];
  write_buf = [];
  has_callback = true;
  closed = false;
}

-- Three bytes of the frame come with one `recv`, the others with the next.
handle_read-delivers_example :
    handle_read log_message
      ((129 ∷ 130 ∷ 1 ∷ []) ∷ (2 ∷ 3 ∷ 255 ∷ 73 ∷ 107 ∷ []) ∷ [])
      again
      open_conn
      []
    ≡ some (
      (if is_empty (deliver_all (call_back log_message true) append_pong (hi ∷ []) ([], [])).0
          then read
          else write),
      record open_conn {
        read_buf = [];
        write_buf = (deliver_all (call_back log_message true) append_pong (hi ∷ []) ([], [])).0;
      },
      (deliver_all (call_back log_message true) append_pong (hi ∷ []) ([], [])).1,
    )
unfolding client_frame client_length mask_with received
handle_read-delivers_example =
    handle_read-delivers log_message ((129 ∷ 130 ∷ 1 ∷ []) ∷ (2 ∷ 3 ∷ 255 ∷ 73 ∷ 107 ∷ []) ∷ [])
      (hi ∷ []) open_conn [] refl refl (hi-IsSent, tt)

handle_write-keeps_example :
    let (action, c', wire) =
      handle_write (sent 2 ∷ would_block ∷ []) (record open_conn { write_buf = 1 ∷ 2 ∷ 3 ∷ [] }) in
    (wire ++ c'.write_buf ≡ 1 ∷ 2 ∷ 3 ∷ [])
    × ((action ≡ read) ↔ ((c'.closed ≡ false) × (c'.write_buf ≡ [])))
    × ((action ≡ close) ↔ (c'.closed ≡ true))
handle_write-keeps_example =
    handle_write-keeps (sent 2 ∷ would_block ∷ []) (record open_conn { write_buf = 1 ∷ 2 ∷ 3 ∷ [] })

send_all-read_back_example :
    parse_frames collect
      (λ acc. acc)
      3
      (send_all (codes "a" ∷ codes "b" ∷ []) open_conn).write_buf
      []
    ≡ some (true, [], codes "a" ∷ codes "b" ∷ [])
send_all-read_back_example =
    send_all-read_back (codes "a" ∷ codes "b" ∷ []) open_conn refl refl
      (omega arith, (omega arith, tt))
