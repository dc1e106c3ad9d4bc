-- ===== src/WebSocket/Server/Messages/Valid.antt =====
-- `handleMessage` of src/websocket/WebSocketServer.cpp and the rooms.
use linux_cpp_web_server.Common.{ℕ, not, ◌||◌, Option, none, some, Bool-cases, inl, inr}
use linux_cpp_web_server.Common.Bytes.{Bytes, is_empty, bytes_eq, codes}
use linux_cpp_web_server.Common.Maps.{nat_key, bytes_key}
use linux_cpp_web_server.WebSocket.Server.{
  WebSocketServer, Notice, with_session, room_action, is_sender, broadcast_room,
}
use linux_cpp_web_server.WebSocket.Server.Frames.{broadcast_room-Kept}
use linux_cpp_web_server.WebSocket.Server.Joined.{IsValid, Kept-IsValid}
use linux_cpp_web_server.WebSocket.Server.Rooms.{room_action-IsValid, with_session-Kept}
use linux_cpp_web_server.WebSocket.Server.Messages.{
  handle_auth, handle_room_action, forward_chat, handle_room_msg, handle_chat, by_type,
  typed_message, handle_message, ◌>>=◌,
}

-- What a handler returns, if it returns, is valid.
abbrev Good : Option WebSocketServer → Type 0
Good none = Unit
Good (some t) = IsValid t

bind-Good :
    {A : Type 0} (o : Option A) (f : A → Option WebSocketServer)
    → ((a : A) → Good (f a))
    → Good (o >>= f)
bind-Good none f h = tt
bind-Good (some a) f h = h a

-- A broadcast of what the JSON library makes of a chat message.
broadcast-Good :
    (o : Option Bytes) (room : Bytes) (s : WebSocketServer)
    → IsValid s
    → Good (elim o [ none ↦ none | some text ↦ some (broadcast_room room text none s) ])
broadcast-Good none room s h = tt
broadcast-Good (some text) room s h =
    Kept-IsValid s (broadcast_room room text none s) (broadcast_room-Kept room text none s) h

kept :
    (o : Option WebSocketServer) (s : WebSocketServer)
    → Good o
    → IsValid s
    → IsValid (elim o [ none ↦ s | some t ↦ t ])
kept none s g h = h
kept (some t) s g h = g

module _ {Json : Type 0} (parse_json : Bytes → Option Json) (value : Bytes → Json → Option Bytes)
    (dump : Notice → ℕ → Option Bytes)
    (chat_text : Json → Bytes → Bytes → Bytes → ℕ → Option Bytes) where
  handle_auth-Good :
      (fd : ℕ) (j : Json) (ts : ℕ) (s : WebSocketServer)
      → IsValid s
      → Good (handle_auth parse_json value dump chat_text fd j ts s)
  unfolding handle_auth
  handle_auth-Good fd j ts s h =
      bind-Good (value (codes "sessionid") j) (λ i. some (with_session dump fd i ts s))
        (λ i. Kept-IsValid s (with_session dump fd i ts s) (with_session-Kept dump fd i ts s) h)

  handle_room_action-Good :
      (fd : ℕ) (j : Json) (ts : ℕ) (s : WebSocketServer)
      → IsValid s
      → Good (handle_room_action parse_json value dump chat_text fd j ts s)
  unfolding handle_room_action
  handle_room_action-Good fd j ts s h = bind-Good (value (codes "action") j) _ (λ a.
      bind-Good (value (codes "room") j) (λ r. some (room_action dump fd a r ts s))
        (λ r. room_action-IsValid dump fd a r ts s h))

  forward_chat-Good :
      (fd : ℕ) (j : Json) (from room content : Bytes) (ts : ℕ) (s : WebSocketServer)
      → IsValid s
      → Good (forward_chat parse_json value dump chat_text fd j from room content ts s)
  unfolding forward_chat
  forward_chat-Good fd j from room content ts s h =
      elim (Bool-cases (is_empty room || is_empty content || not (is_sender fd from s))) [
        | inl e ↦ rw (forward_chat, e) h
        | inr e ↦ rw (forward_chat, e) (broadcast-Good (chat_text j from room content ts) room s h)
      ]

  handle_chat-Good :
      (fd : ℕ) (j : Json) (ts : ℕ) (s : WebSocketServer)
      → IsValid s
      → Good (handle_chat parse_json value dump chat_text fd j ts s)
  unfolding handle_chat handle_room_msg
  handle_chat-Good fd j ts s h = bind-Good (value (codes "subtype") j) _ (λ t.
      elim (Bool-cases (bytes_eq t (codes "room_msg"))) [
        | inl e ↦ rw e (
            bind-Good (value (codes "room") j) _ (λ r. bind-Good (value (codes "content") j) _ (λ c.
              bind-Good (value (codes "from") j) _ (λ f. forward_chat-Good fd j f r c ts s h))))
        | inr e ↦ rw e h
      ])

  by_type-Good :
      (type : Bytes) (fd : ℕ) (j : Json) (ts : ℕ) (s : WebSocketServer)
      → IsValid s
      → Good (by_type parse_json value dump chat_text type fd j ts s)
  unfolding by_type
  by_type-Good type fd j ts s h = elim (Bool-cases (bytes_eq type (codes "auth"))) [
    | inl a ↦ rw (by_type, a) (handle_auth-Good fd j ts s h)
    | inr na ↦ elim (Bool-cases (bytes_eq type (codes "room"))) [
      | inl r ↦ rw (by_type, na, r) (handle_room_action-Good fd j ts s h)
      | inr nr ↦ elim (Bool-cases (bytes_eq type (codes "chat"))) [
        | inl c ↦ rw (by_type, na, nr, c) (handle_chat-Good fd j ts s h)
        | inr nc ↦ rw (by_type, na, nr, nc) h
      ]
    ]
  ]

  -- Whatever bytes a client sends and whatever the JSON library makes of them, a server whose rooms
  -- hold only descriptors of connections, each once, is such a server after `handleMessage`, also where
  -- the library throws, behind a change of the rooms or of the users or before it.
  pub handle_message-IsValid :
      (fd : ℕ) (msg : Bytes) (ts : ℕ) (s : WebSocketServer)
      → IsValid s
      → IsValid (handle_message parse_json value dump chat_text fd msg ts s)
  unfolding handle_message typed_message
  handle_message-IsValid fd msg ts s h =
      kept (typed_message parse_json value dump chat_text fd msg ts s) s
        (bind-Good (parse_json msg) _
          (λ j. bind-Good (value (codes "type") j) _ (λ t. by_type-Good t fd j ts s h)))
        h
