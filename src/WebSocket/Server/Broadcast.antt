-- ===== src/WebSocket/Server/Broadcast.antt =====
-- Who receives what is sent to a room.
use linux_cpp_web_server.Common.{
  ℕ, Bool, true, false, not, ◌&&◌, Option, none, some, List, [], ◌∷◌, ◌==◌, ◌≡◌, refl, arith,
  Bool-cases, Option-cases, inl, inr, ap, ◌∙◌,
}
use linux_cpp_web_server.Common.Bytes.{Bytes}
use linux_cpp_web_server.Common.Maps
use linux_cpp_web_server.Common.Maps.{
  nat_key, bytes_key, get-put, get-remove, has-put, has-remove, has-get,
}
use linux_cpp_web_server.WebSocket.Conn.{WebSocketConn, send_text, write_buffer_empty}
use linux_cpp_web_server.WebSocket.Server.{
  WebSocketServer, set_at, broadcast_room, broadcast_to, deliver_to, is_excluded, put_text, trigger,
}
use linux_cpp_web_server.WebSocket.Server.Members.{member, Distinct}

-- What the connection of `g` is after a message was sent to the members `fds` but `exclude`.
abbrev pub after : Bool → Bytes → Option WebSocketConn → Option WebSocketConn
after true message (some c) = some (send_text message c)
after true message none = none
after false message o = o

abbrev pub is_addressed : List ℕ → Option ℕ → ℕ → Bool
is_addressed fds exclude g = member g fds && not (is_excluded exclude g)

get-trigger :
    (fd g : ℕ) (s : WebSocketServer) → Maps.get g (trigger fd s).conns ≡ Maps.get g s.conns
unfolding trigger
get-trigger fd g s = elim (Option-cases (Maps.get fd s.fd_callbacks)) [
  | inl e ↦ rw (trigger, e) refl
  | inr (cb, e) ↦ rw (trigger, e) refl
]

get-put_text :
    (fd g : ℕ) (text : Bytes) (c : WebSocketConn) (s : WebSocketServer)
    → Maps.get fd s.conns ≡ some c
    → Maps.get g (put_text fd text c s).conns ≡ after (fd == g) text (Maps.get g s.conns)
unfolding put_text
get-put_text fd g text c s h = elim (Bool-cases (fd == g)) [
  | inl same ↦
      let e : fd ≡ g = ground arith in
      get-put fd g (send_text text c) s.conns ∙ rw (same, ← e, h) refl
  | inr other ↦ get-put fd g (send_text text c) s.conns ∙ rw other refl
]

get-deliver_to :
    (fd g : ℕ) (text : Bytes) (s : WebSocketServer)
    → Maps.get g (deliver_to fd text s).conns ≡ after (fd == g) text (Maps.get g s.conns)
unfolding deliver_to
get-deliver_to fd g text s = elim (Option-cases (Maps.get fd s.conns)) [
  | inl e ↦
      rw (deliver_to, e)
        (elim (Bool-cases (fd == g)) [
          | inl same ↦ let i : fd ≡ g = ground arith in rw (same, ← i, e) refl
          | inr other ↦ rw other refl
        ])
  | inr (c, e) ↦ elim (Bool-cases (write_buffer_empty c)) [
    | inl idle ↦
        rw (deliver_to, e, idle)
          (get-trigger fd g (put_text fd text c s) ∙ get-put_text fd g text c s e)
    | inr busy ↦ rw (deliver_to, e, busy) (get-put_text fd g text c s e)
  ]
]

not_addressed :
    (fd g : ℕ) (fds : List ℕ) → (fd == g) ≡ true → member fd fds ≡ false → member g fds ≡ false
not_addressed fd g fds same h = let e : fd ≡ g = ground arith in rw (← e) h

-- A message to a list of members reaches each of them that is not excluded once, and nobody else.
broadcast_to-delivers :
    (fds : List ℕ) (message : Bytes) (exclude : Option ℕ) (s : WebSocketServer) (g : ℕ)
    → Distinct fds
    → Maps.get g (broadcast_to fds message exclude s).conns
      ≡ after (is_addressed fds exclude g) message (Maps.get g s.conns)
unfolding broadcast_to member
broadcast_to-delivers [] message exclude s g d = refl
broadcast_to-delivers (fd ∷ fds) message exclude s g d =
    elim (Bool-cases (is_excluded exclude fd)) [
      | inl skip ↦
          rw (broadcast_to, skip)
            (broadcast_to-delivers fds message exclude s g d.1 ∙ elim (Bool-cases (fd == g)) [
              | inl same ↦
                  let i : fd ≡ g = ground arith in
                  rw (not_addressed fd g fds same d.0, same, ← i, skip) refl
              | inr other ↦ rw other refl
            ])
      | inr send ↦
          rw (broadcast_to, send)
            (broadcast_to-delivers fds message exclude (deliver_to fd message s) g d.1
              ∙ ap (after (is_addressed fds exclude g) message) (get-deliver_to fd g message s)
              ∙ elim (Bool-cases (fd == g)) [
                | inl same ↦
                    let i : fd ≡ g = ground arith in
                    rw (not_addressed fd g fds same d.0, same, ← i, send) refl
                | inr other ↦ rw other refl
              ])
    ]

-- What is sent to a room reaches each connection that is a member and not excluded, once and as one
-- text frame behind what waits in its write buffer, and changes no other connection, where the room
-- holds each descriptor once.
pub broadcast_room-delivers :
    (room message : Bytes) (exclude : Option ℕ) (s : WebSocketServer) (g : ℕ)
    → Distinct (set_at room s.rooms)
    → Maps.get g (broadcast_room room message exclude s).conns
      ≡ after (is_addressed (set_at room s.rooms) exclude g) message (Maps.get g s.conns)
unfolding broadcast_room set_at member
broadcast_room-delivers room message exclude s g d = elim (Option-cases (Maps.get room s.rooms)) [
  | inl e ↦ rw (broadcast_room, set_at, e) refl
  | inr (fds, e) ↦
      rw (broadcast_room, set_at, e)
        (broadcast_to-delivers fds message exclude s g (ap_distinct fds e))
]
  where
    ap_distinct : (fds : List ℕ) → Maps.get room s.rooms ≡ some fds → Distinct fds
    ap_distinct fds e = rw (set_at, e) at d
