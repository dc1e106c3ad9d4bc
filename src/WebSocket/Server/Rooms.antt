-- ===== src/WebSocket/Server/Rooms.antt =====
-- Joining, leaving and authentication in src/websocket/WebSocketServer.cpp, and the rooms.
use linux_cpp_web_server.Common.{
  ℕ, ◌≡◌, refl, ◌∙◌, Option, some, ==_refl, Bool-cases, Option-cases, inl, inr,
}
use linux_cpp_web_server.Common.Bytes.{Bytes, is_empty, bytes_eq, codes}
use linux_cpp_web_server.Common.Maps
use linux_cpp_web_server.Common.Maps.{
  nat_key, bytes_key, get-put, get-remove, has-put, has-remove, has-get,
}
use linux_cpp_web_server.WebSocket.Conn.{WebSocketConn}
use linux_cpp_web_server.WebSocket.Server.{
  WebSocketServer, Notice, authenticated, set_at, username_of, join_room, leave_room, announce,
  left_by, set_username, authenticate, trigger, put_text, session_user, with_session, room_action,
}
use linux_cpp_web_server.WebSocket.Server.Members.{insert}
use linux_cpp_web_server.WebSocket.Server.Frames.{
  Kept, Kept-trans, Kept-refl, announce-Kept, answer-Kept, trigger-Kept, put_text-Kept,
  has-put-some,
}
use linux_cpp_web_server.WebSocket.Server.Joined.{
  IsValid, Kept-IsValid, insert-IsValid, drop_from_room-IsValid,
}

module _ (dump : Notice → ℕ → Option Bytes) where
  pub join_room-IsValid :
      (room : Bytes) (fd ts : ℕ) (s : WebSocketServer)
      → IsValid s
      → IsValid (join_room dump room fd ts s)
  unfolding join_room left_by
  join_room-IsValid room fd ts s h = elim (Option-cases (Maps.get fd s.conns)) [
    | inl e ↦ rw (join_room, e) h
    | inr (c, e) ↦
        let t : WebSocketServer = record s {
          rooms = Maps.put room (insert fd (set_at room s.rooms)) s.rooms;
        } in
        let valid = insert-IsValid room fd s (has-get fd c s.conns e) h in
        elim (Option-cases (announce dump room c.username (codes " joined room ") ts t)) [
          | inl raised ↦ rw (join_room, e, raised) valid
          | inr (u, told) ↦
              rw (join_room, e, told)
                (Kept-IsValid t u
                  (announce-Kept dump room c.username (codes " joined room ") ts t u told) valid)
        ]
  ]

  pub leave_room-IsValid :
      (room : Bytes) (fd ts : ℕ) (s : WebSocketServer)
      → IsValid s
      → IsValid (leave_room dump room fd ts s)
  unfolding leave_room
  leave_room-IsValid room fd ts s h = elim (Option-cases (Maps.get room s.rooms)) [
    | inl e ↦ rw (leave_room, e) h
    | inr (fds, e) ↦
        let name = username_of (Maps.get fd s.conns) in
        elim (Option-cases (announce dump room name (codes " left room ") ts s)) [
          | inl raised ↦ rw (leave_room, e, raised) h
          | inr (t, told) ↦
              rw (leave_room, e, told)
                (drop_from_room-IsValid room fd t (
                  Kept-IsValid s t (announce-Kept dump room name (codes " left room ") ts s t told)
                    h))
        ]
  ]

  pub room_action-IsValid :
      (fd : ℕ) (action room : Bytes) (ts : ℕ) (s : WebSocketServer)
      → IsValid s
      → IsValid (room_action dump fd action room ts s)
  unfolding room_action
  room_action-IsValid fd action room ts s h = elim (Bool-cases (is_empty room)) [
    | inl e ↦ rw (room_action, e) h
    | inr e ↦ elim (Bool-cases (bytes_eq action (codes "join"))) [
      | inl j ↦ rw (room_action, e, j) (join_room-IsValid room fd ts s h)
      | inr nj ↦ elim (Bool-cases (bytes_eq action (codes "leave"))) [
        | inl l ↦ rw (room_action, e, nj, l) (leave_room-IsValid room fd ts s h)
        | inr nl ↦ rw (room_action, e, nj, nl) h
      ]
    ]
  ]

  set_username-Kept :
      (fd : ℕ) (username : Bytes) (c : WebSocketConn) (s : WebSocketServer)
      → Maps.get fd s.conns ≡ some c
      → Kept s (set_username dump fd username c s)
  unfolding set_username
  set_username-Kept fd username c s e = record {
    same_rooms = refl;
    same_conns = λ g. has-put-some fd g c (record c { username = username }) s.conns e;
  }

  authenticate-Kept :
      (fd : ℕ) (username : Bytes) (ts : ℕ) (s : WebSocketServer)
      → Kept s (authenticate dump fd username ts s)
  unfolding authenticate set_username
  authenticate-Kept fd username ts s = elim (Option-cases (Maps.get fd s.conns)) [
    | inl e ↦ rw (authenticate, e) (Kept-refl s)
    | inr (c, e) ↦
        let named : WebSocketConn = record c { username = username } in
        let known = set_username dump fd username c s in
        let first = set_username-Kept fd username c s e in
        elim (Option-cases (dump (authenticated username) ts)) [
          | inl raised ↦ rw (authenticate, e, raised) first
          | inr (text, printed) ↦
              let there : Maps.get fd known.conns ≡ some named =
                get-put fd fd named s.conns ∙ rw (==_refl fd) refl in
              let t = put_text fd text named known in
              let second = put_text-Kept fd text named named known there in
              rw (authenticate, e, printed)
                (Kept-trans s t (trigger fd t) (Kept-trans s known t first second)
                  (trigger-Kept fd t))
        ]
  ]

  pub with_session-Kept :
      (fd : ℕ) (sessionid : Bytes) (ts : ℕ) (s : WebSocketServer)
      → Kept s (with_session dump fd sessionid ts s)
  unfolding with_session
  with_session-Kept fd sessionid ts s = elim (Bool-cases (is_empty sessionid)) [
    | inl e ↦ rw (with_session, e) (answer-Kept dump fd _ ts s)
    | inr e ↦ elim (Bool-cases (is_empty (session_user sessionid s))) [
      | inl u ↦ rw (with_session, e, u) (answer-Kept dump fd _ ts s)
      | inr u ↦ rw (with_session, e, u) (authenticate-Kept fd (session_user sessionid s) ts s)
    ]
  ]
