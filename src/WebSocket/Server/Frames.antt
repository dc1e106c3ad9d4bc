-- ===== src/WebSocket/Server/Frames.antt =====
-- What sending in src/websocket/WebSocketServer.cpp does to the tables.
use linux_cpp_web_server.Common.{
  ℕ, Option, none, some, List, [], ◌∷◌, ◌++◌, ◌==◌, ◌≡◌, refl, arith, Bool-cases, Option-cases, inl,
  inr, sym, ap, ◌∙◌,
}
use mathlib.Core.Path.{subst}
use linux_cpp_web_server.Common.Bytes.{Bytes, is_empty}
use linux_cpp_web_server.Common.Maps
use linux_cpp_web_server.Common.Maps.{nat_key, bytes_key, has-put, has-get}
use linux_cpp_web_server.WebSocket.Conn.{WebSocketConn, send_text, write_buffer_empty}
use linux_cpp_web_server.WebSocket.Server.{
  WebSocketServer, Notice, system, trigger, put_text, deliver_to, is_excluded, broadcast_to,
  broadcast_room, announce, answer,
}

-- Nothing but write buffers, user names and calls of callbacks is different.
pub record Kept (s t : WebSocketServer) : Type 0 where
  pub same_rooms : t.rooms ≡ s.rooms
  pub same_conns : (fd : ℕ) → Maps.has fd t.conns ≡ Maps.has fd s.conns

pub Kept-refl : (s : WebSocketServer) → Kept s s
Kept-refl s = record { same_rooms = refl; same_conns = λ fd. refl }

pub Kept-same : (s t : WebSocketServer) → s ≡ t → Kept s t
Kept-same s t e = subst (Kept s) e (Kept-refl s)

pub Kept-trans : (s t u : WebSocketServer) → Kept s t → Kept t u → Kept s u
Kept-trans s t u h k = record {
  same_rooms = k.same_rooms ∙ h.same_rooms;
  same_conns = λ fd. k.same_conns fd ∙ h.same_conns fd;
}

-- A connection that replaces another.
pub has-put-some :
    (fd g : ℕ) (c d : WebSocketConn) (m : List (ℕ × WebSocketConn))
    → Maps.get fd m ≡ some c
    → Maps.has g (Maps.put fd d m) ≡ Maps.has g m
has-put-some fd g c d m h =
    has-put fd g d m
    ∙ (let old = has-get fd c m h in
        elim (Bool-cases (fd == g)) [
          | inl same ↦
              let e : fd ≡ g = ground arith in rw same (sym (ap (λ x. Maps.has x m) (sym e) ∙ old))
          | inr other ↦ rw other refl
        ])

pub trigger-Kept : (fd : ℕ) (s : WebSocketServer) → Kept s (trigger fd s)
unfolding trigger
trigger-Kept fd s = elim (Option-cases (Maps.get fd s.fd_callbacks)) [
  | inl e ↦ rw (trigger, e) (Kept-refl s)
  | inr (cb, e) ↦ rw (trigger, e) (record { same_rooms = refl; same_conns = λ g. refl })
]

pub put_text-Kept :
    (fd : ℕ) (text : Bytes) (c d : WebSocketConn) (s : WebSocketServer)
    → Maps.get fd s.conns ≡ some c
    → Kept s (put_text fd text d s)
unfolding put_text
put_text-Kept fd text c d s h = record {
  same_rooms = refl;
  same_conns = λ g. has-put-some fd g c (send_text text d) s.conns h;
}

deliver_to-Kept : (fd : ℕ) (text : Bytes) (s : WebSocketServer) → Kept s (deliver_to fd text s)
unfolding deliver_to
deliver_to-Kept fd text s = elim (Option-cases (Maps.get fd s.conns)) [
  | inl e ↦ rw (deliver_to, e) (Kept-refl s)
  | inr (c, e) ↦
      let put = put_text-Kept fd text c c s e in
      let after = put_text fd text c s in
      elim (Bool-cases (write_buffer_empty c)) [
        | inl idle ↦
            rw (deliver_to, e, idle)
              (Kept-trans s after (trigger fd after) put (trigger-Kept fd after))
        | inr busy ↦ rw (deliver_to, e, busy) put
      ]
]

pub broadcast_to-Kept :
    (fds : List ℕ) (message : Bytes) (exclude : Option ℕ) (s : WebSocketServer)
    → Kept s (broadcast_to fds message exclude s)
unfolding broadcast_to
broadcast_to-Kept [] message exclude s = Kept-refl s
broadcast_to-Kept (fd ∷ fds) message exclude s = elim (Bool-cases (is_excluded exclude fd)) [
  | inl skip ↦ rw (broadcast_to, skip) (broadcast_to-Kept fds message exclude s)
  | inr not_skip ↦
      let t = deliver_to fd message s in
      rw (broadcast_to, not_skip)
        (Kept-trans s t (broadcast_to fds message exclude t) (deliver_to-Kept fd message s)
          (broadcast_to-Kept fds message exclude t))
]

pub broadcast_room-Kept :
    (room message : Bytes) (exclude : Option ℕ) (s : WebSocketServer)
    → Kept s (broadcast_room room message exclude s)
unfolding broadcast_room
broadcast_room-Kept room message exclude s = elim (Option-cases (Maps.get room s.rooms)) [
  | inl e ↦ rw (broadcast_room, e) (Kept-refl s)
  | inr (fds, e) ↦ rw (broadcast_room, e) (broadcast_to-Kept fds message exclude s)
]

module _ (dump : Notice → ℕ → Option Bytes) where
  pub announce-Kept :
      (room username what : Bytes) (ts : ℕ) (s t : WebSocketServer)
      → announce dump room username what ts s ≡ some t
      → Kept s t
  unfolding announce
  announce-Kept room username what ts s t e = elim (Bool-cases (is_empty username)) [
    | inl unknown ↦ Kept-same s t (cc (rw (announce, unknown) at e))
    | inr known ↦ elim (Option-cases (dump (system (username ++ what ++ room)) ts)) [
      | inl raised ↦ absurd (cc (rw (announce, known, raised) at e))
      | inr (text, printed) ↦
          let sent : broadcast_room room text none s ≡ t =
            cc (rw (announce, known, printed) at e) in
          subst (Kept s) sent (broadcast_room-Kept room text none s)
    ]
  ]

  pub answer-Kept :
      (fd : ℕ) (notice : Notice) (ts : ℕ) (s : WebSocketServer)
      → Kept s (answer dump fd notice ts s)
  unfolding answer
  answer-Kept fd notice ts s = elim (Option-cases (Maps.get fd s.conns)) [
    | inl e ↦ rw (answer, e) (Kept-refl s)
    | inr (c, e) ↦ elim (Option-cases (dump notice ts)) [
      | inl raised ↦ rw (answer, e, raised) (Kept-refl s)
      | inr (text, printed) ↦
          let after = put_text fd text c s in
          rw (answer, e, printed)
            (Kept-trans s after (trigger fd after) (put_text-Kept fd text c c s e)
              (trigger-Kept fd after))
    ]
  ]
