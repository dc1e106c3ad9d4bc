-- ===== src/WebSocket/Server/Messages.antt =====
-- `handleMessage` and the handlers of src/websocket/WebSocketServer.cpp. The JSON library is a
-- parameter: `parse_json`, `value` for `j.value(key, "")`, `dump` for the server's own messages, and
-- `chat_text` for the message that `handleChat` forwards, with the time it takes from `j` or the clock.
-- `none` is an exception before any change, which `handleMessage` catches; an exception of `dump` behind
-- a change leaves what the operations of the server leave.
pub mod Valid
pub mod Sender
use linux_cpp_web_server.Common.{
  ℕ, Bool, true, false, not, ◌&&◌, ◌||◌, Option, none, some, List, [], ◌∷◌, if◌then◌else◌, ◌≡◌,
  refl, arith, Bool-cases, inl, inr,
}
use linux_cpp_web_server.Common.Bytes.{Bytes, codes, is_empty, bytes_eq}
use linux_cpp_web_server.Common.Maps
use linux_cpp_web_server.Common.Maps.{nat_key, bytes_key}
use linux_cpp_web_server.WebSocket.Conn.{WebSocketConn}
use linux_cpp_web_server.WebSocket.Server.{
  WebSocketServer, Notice, broadcast_room, with_session, room_action, is_sender,
}

infixl 5 ◌>>=◌
abbrev pub ◌>>=◌ {ℓ κ} : {A : Type ℓ} {B : Type κ} → Option A → (A → Option B) → Option B
none >>= f = none
some a >>= f = f a

module _ {Json : Type 0} (parse_json : Bytes → Option Json) (value : Bytes → Json → Option Bytes)
    (dump : Notice → ℕ → Option Bytes)
    (chat_text : Json → Bytes → Bytes → Bytes → ℕ → Option Bytes) where
  pub handle_auth : ℕ → Json → ℕ → WebSocketServer → Option WebSocketServer
  handle_auth fd j ts s = do
    sessionid ← value (codes "sessionid") j
    some (with_session dump fd sessionid ts s)

  pub handle_room_action : ℕ → Json → ℕ → WebSocketServer → Option WebSocketServer
  handle_room_action fd j ts s = do
    action ← value (codes "action") j
    room ← value (codes "room") j
    some (room_action dump fd action room ts s)

  pub forward_chat : ℕ → Json → Bytes → Bytes → Bytes → ℕ → WebSocketServer → Option WebSocketServer
  forward_chat fd j from room content ts s =
      if is_empty room || is_empty content || not (is_sender fd from s)
      then some s
      else elim (chat_text j from room content ts) [
        | none ↦ none
        | some text ↦ some (broadcast_room room text none s)
      ]

  pub handle_room_msg : ℕ → Json → ℕ → WebSocketServer → Option WebSocketServer
  handle_room_msg fd j ts s = do
    room ← value (codes "room") j
    content ← value (codes "content") j
    from ← value (codes "from") j
    forward_chat fd j from room content ts s

  pub handle_chat : ℕ → Json → ℕ → WebSocketServer → Option WebSocketServer
  handle_chat fd j ts s = do
    subtype ← value (codes "subtype") j
    if bytes_eq subtype (codes "room_msg") then handle_room_msg fd j ts s else some s

  pub by_type : Bytes → ℕ → Json → ℕ → WebSocketServer → Option WebSocketServer
  by_type type fd j ts s =
      if bytes_eq type (codes "auth")
      then handle_auth fd j ts s
      else if bytes_eq type (codes "room")
      then handle_room_action fd j ts s
      else if bytes_eq type (codes "chat")
      then handle_chat fd j ts s
      else some s

  pub typed_message : ℕ → Bytes → ℕ → WebSocketServer → Option WebSocketServer
  typed_message fd msg ts s = do
    j ← parse_json msg
    type ← value (codes "type") j
    by_type type fd j ts s

  pub handle_message : ℕ → Bytes → ℕ → WebSocketServer → WebSocketServer
  handle_message fd msg ts s = elim (typed_message fd msg ts s) [ none ↦ s | some t ↦ t ]
