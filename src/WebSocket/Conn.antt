-- ===== src/WebSocket/Conn.antt =====
-- src/websocket/WebSocketConn.cpp: one connection. The socket answers by values: the chunks that
-- `recv` returns and how their row ends, and a list of what `send` returns; at the end of that list
-- the kernel's buffer is full. The message callback acts on the write buffer of this connection and on
-- a world `W` of everything else that it reaches.
pub mod Delivery
pub mod Tests
use linux_cpp_web_server.Common.{
  ℕ, suc, Bool, true, false, Option, none, some, List, [], ◌∷◌, ◌++◌, ◌==◌, if◌then◌else◌, length,
  take, drop,
}
use linux_cpp_web_server.Common.Bytes.{Bytes, is_empty}
use linux_cpp_web_server.Tools.{Action, read, write, close}
use linux_cpp_web_server.WebSocket.Frame.{parse_frames, pack_text_frame}

pub record WebSocketConn : Type 0 where
  pub fd : ℕ
  pub username : Bytes
  pub read_buf : Bytes
  pub write_buf : Bytes
  pub has_callback : Bool
  pub closed : Bool

-- How a row of `recv` calls ends: the peer closed, nothing more for now, or an error.
pub data RecvEnd : Type 0 where
  eof again failed : RecvEnd

pub data SendResult : Type 0 where
  sent : ℕ → SendResult
  would_block broken : SendResult

unfoldable pub init : ℕ → WebSocketConn
init fd = record {
  fd = fd;
  username = [];
  read_buf = [];
  write_buf = [];
  has_callback = false;
  closed = false;
}

pub reset : WebSocketConn → WebSocketConn
reset c = record c {
  username = [];
  read_buf = [];
  write_buf = [];
  closed = false;
  has_callback = false;
}

unfoldable pub set_on_message_callback : WebSocketConn → WebSocketConn
set_on_message_callback c = record c { has_callback = true }

pub send_text : Bytes → WebSocketConn → WebSocketConn
send_text text c =
    if c.closed then c else record c { write_buf = c.write_buf ++ pack_text_frame text }

pub write_buffer_empty : WebSocketConn → Bool
write_buffer_empty c = is_empty c.write_buf

-- The loop of `recv`: every chunk is appended.
unfoldable pub received : Bytes → List Bytes → Bytes
received buf [] = buf
received buf (chunk ∷ chunks) = received (buf ++ chunk) chunks

pub append_pong {ℓ} : {W : Type ℓ} → Bytes × W → Bytes × W
append_pong (wb, w) = (wb ++ 0x8a ∷ 0x00 ∷ [], w)

module _ {W : Type 0} (on_message : Bytes → Bytes × W → Bytes × W) where
  -- `if (on_message_cb_)`
  pub call_back : Bool → Bytes → Bytes × W → Bytes × W
  call_back true msg s = on_message msg s
  call_back false msg s = s

  pub after_frames : WebSocketConn → Bool × Bytes × (Bytes × W) → Action × WebSocketConn × W
  after_frames c (true, rest, (wb, w)) =
      ((if is_empty wb then read else write), record c { read_buf = rest; write_buf = wb }, w)
  after_frames c (false, rest, (wb, w)) =
      (close, record c { read_buf = rest; write_buf = wb; closed = true }, w)

  -- `parseFrames` on the connection; `none` means that it does not return.
  pub parse_and_answer : WebSocketConn → W → Option (Action × WebSocketConn × W)
  parse_and_answer c w =
      elim (parse_frames (call_back c.has_callback) append_pong (suc (length c.read_buf)) c.read_buf
        (c.write_buf, w)) [ none ↦ none | some r ↦ some (after_frames c r) ]

  pub handle_recv_end : RecvEnd → WebSocketConn → W → Option (Action × WebSocketConn × W)
  handle_recv_end eof c w = some (close, record c { closed = true }, w)
  handle_recv_end failed c w = some (close, record c { closed = true }, w)
  handle_recv_end again c w = parse_and_answer c w

  pub handle_read : List Bytes → RecvEnd → WebSocketConn → W → Option (Action × WebSocketConn × W)
  handle_read chunks last c w =
      if c.closed
      then some (close, c, w)
      else handle_recv_end last (record c { read_buf = received c.read_buf chunks }) w

-- What a row of `send` calls does: the bytes on the wire, those left, and the answer.
pub record Sending : Type 0 where
  pub wire : Bytes
  pub left : Bytes
  pub action : Action
  pub closed : Bool

pub send_loop : List SendResult → Bytes → Sending
send_loop rs [] = record { wire = []; left = []; action = read; closed = false }
send_loop [] (x ∷ buf) = record { wire = []; left = x ∷ buf; action = write; closed = false }
send_loop (would_block ∷ rs) (x ∷ buf) = record {
  wire = [];
  left = x ∷ buf;
  action = write;
  closed = false;
}
send_loop (broken ∷ rs) (x ∷ buf) = record {
  wire = [];
  left = x ∷ buf;
  action = close;
  closed = true;
}
send_loop (sent n ∷ rs) (x ∷ buf) =
    let more = send_loop rs (drop n (x ∷ buf)) in
    if n == 0
    then record { wire = []; left = x ∷ buf; action = close; closed = true }
    else record more { wire = take n (x ∷ buf) ++ more.wire }

-- The action, the connection and the bytes put on the wire.
pub handle_write : List SendResult → WebSocketConn → Action × WebSocketConn × Bytes
handle_write rs c =
    let s = send_loop rs c.write_buf in
    if c.closed
    then (close, c, [])
    else (s.action, record c { write_buf = s.left; closed = s.closed }, s.wire)
