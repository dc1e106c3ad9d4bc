-- ===== src/WebSocket/Server/Messages/Sender.antt =====
-- Whose chat messages are passed on.
use linux_cpp_web_server.Common.{
  ℕ, false, Option, some, ◌≡◌, refl, Bool-cases, Option-cases, inl, inr, ◌∙◌, ◌≢◌,
}
use linux_cpp_web_server.Common.Bytes.{Bytes, codes, is_empty, bytes_eq}
use linux_cpp_web_server.Common.Bytes.Search.{bytes_eq_sound}
use linux_cpp_web_server.Common.Maps
use linux_cpp_web_server.Common.Maps.{nat_key, bytes_key}
use linux_cpp_web_server.WebSocket.Conn.{WebSocketConn}
use linux_cpp_web_server.WebSocket.Server.{WebSocketServer, Notice, is_sender}
use linux_cpp_web_server.WebSocket.Server.Messages.{
  forward_chat, handle_message, typed_message, by_type, handle_chat, handle_room_msg,
}

is_sender_sound :
    (fd : ℕ) (from : Bytes) (s : WebSocketServer) (c : WebSocketConn)
    → Maps.get fd s.conns ≡ some c
    → is_sender fd from s ≡ bytes_eq c.username from
unfolding is_sender
is_sender_sound fd from s c e = rw (is_sender, e) refl

different : (a b : Bytes) → a ≢ b → bytes_eq a b ≡ false
different a b ne = elim (Bool-cases (bytes_eq a b)) [
  | inl same ↦ absurd (ne (bytes_eq_sound a b same))
  | inr other ↦ other
]

module _ {Json : Type 0} (parse_json : Bytes → Option Json) (value : Bytes → Json → Option Bytes)
    (dump : Notice → ℕ → Option Bytes)
    (chat_text : Json → Bytes → Bytes → Bytes → ℕ → Option Bytes) where
  forward_chat-impostor :
      (fd : ℕ) (j : Json) (from room content : Bytes) (ts : ℕ) (s : WebSocketServer)
      (c : WebSocketConn)
      → Maps.get fd s.conns ≡ some c
      → c.username ≢ from
      → forward_chat parse_json value dump chat_text fd j from room content ts s ≡ some s
  unfolding forward_chat
  forward_chat-impostor fd j from room content ts s c e ne =
      let no : is_sender fd from s ≡ false =
        is_sender_sound fd from s c e ∙ different c.username from ne in
      elim (Bool-cases (is_empty room)) [
        | inl r ↦ rw (forward_chat, r) refl
        | inr r ↦ elim (Bool-cases (is_empty content)) [
          | inl t ↦ rw (forward_chat, r, t) refl
          | inr t ↦ rw (forward_chat, r, t, no) refl
        ]
      ]

  -- What `handleMessage` does with the text of a chat message for a room: the chain of its handlers.
  handle_message-room_msg :
      (fd : ℕ) (msg : Bytes) (j : Json) (from : Bytes) (ts : ℕ) (s : WebSocketServer)
      → parse_json msg ≡ some j
      → value (codes "type") j ≡ some (codes "chat")
      → value (codes "subtype") j ≡ some (codes "room_msg")
      → value (codes "from") j ≡ some from
      → ((room content : Bytes)
          → forward_chat parse_json value dump chat_text fd j from room content ts s ≡ some s)
      → handle_message parse_json value dump chat_text fd msg ts s ≡ s
  unfolding handle_message typed_message by_type handle_chat handle_room_msg bytes_eq
  handle_message-room_msg fd msg j from ts s parsed type subtype named dropped =
      elim (Option-cases (value (codes "room") j)) [
        | inl r ↦ rw (handle_message, typed_message, parsed, type, subtype, r) refl
        | inr (room, r) ↦ elim (Option-cases (value (codes "content") j)) [
          | inl t ↦ rw (handle_message, typed_message, parsed, type, subtype, r, t) refl
          | inr (content, t) ↦
              rw
                (
                  handle_message,
                  typed_message,
                  parsed,
                  type,
                  subtype,
                  r,
                  t,
                  named,
                  dropped room content,
                )
                refl
        ]
      ]

  -- A chat message for a room that names another sender than the user of the connection that it came
  -- by leaves the server as it is, whatever the room and the text, and whether the JSON library finds
  -- them or throws.
  pub handle_message-impostor :
      (fd : ℕ) (msg : Bytes) (j : Json) (from : Bytes) (ts : ℕ) (s : WebSocketServer)
      (c : WebSocketConn)
      → parse_json msg ≡ some j
      → value (codes "type") j ≡ some (codes "chat")
      → value (codes "subtype") j ≡ some (codes "room_msg")
      → value (codes "from") j ≡ some from
      → Maps.get fd s.conns ≡ some c
      → c.username ≢ from
      → handle_message parse_json value dump chat_text fd msg ts s ≡ s
  handle_message-impostor fd msg j from ts s c parsed type subtype named e ne =
      handle_message-room_msg fd msg j from ts s parsed type subtype named
        (λ room content. forward_chat-impostor fd j from room content ts s c e ne)
