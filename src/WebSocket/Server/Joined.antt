-- ===== src/WebSocket/Server/Joined.antt =====
-- The rooms of src/websocket/WebSocketServer.cpp and the descriptors in them.
use linux_cpp_web_server.Common.{
  ℕ, true, List, [], ◌∷◌, if◌then◌else◌, ◌≡◌, refl, arith, Bool-cases, Option-cases, inl, inr, sym,
  ap, ◌∙◌,
}
use linux_cpp_web_server.Common.Bytes.{Bytes, bytes_eq}
use linux_cpp_web_server.Common.Maps
use linux_cpp_web_server.Common.Maps.{nat_key, bytes_key, get-put, get-remove, has-put, has-remove}
use linux_cpp_web_server.WebSocket.Conn.{WebSocketConn, set_on_message_callback}
use linux_cpp_web_server.WebSocket.Server.{
  WebSocketServer, init, set_at, erase_everywhere, erase_member, remove_connection, add_connection,
  drop_from_room,
}
use linux_cpp_web_server.WebSocket.Server.Members.{
  member, insert, erase, is_none_left, member-insert, member-erase, Distinct, insert-Distinct,
  erase-Distinct,
}
use linux_cpp_web_server.WebSocket.Server.Frames.{Kept}

pub record IsValid (s : WebSocketServer) : Type 0 where
  pub joined :
      (room : Bytes) (fd : ℕ) → member fd (set_at room s.rooms) ≡ true → Maps.has fd s.conns ≡ true
  pub distinct : (room : Bytes) → Distinct (set_at room s.rooms)

pub empty-IsValid : (sessions : List (Bytes × Bytes)) → IsValid (init sessions)
unfolding init set_at Maps.get member
empty-IsValid sessions = record { joined = λ room fd m. cc; distinct = λ room. tt }

pub Kept-IsValid : (s t : WebSocketServer) → Kept s t → IsValid s → IsValid t
Kept-IsValid s t k h = record {
  joined = λ room fd m.
      k.same_conns fd
      ∙ h.joined room fd (ap (λ r. member fd (set_at room r)) (sym k.same_rooms) ∙ m);
  distinct = λ room. rw k.same_rooms (h.distinct room);
}

pub set_at-erase_everywhere :
    (fd : ℕ) (room : Bytes) (m : List (Bytes × List ℕ))
    → set_at room (erase_everywhere fd m) ≡ erase fd (set_at room m)
unfolding set_at Maps.get erase_everywhere erase
set_at-erase_everywhere fd room [] = refl
set_at-erase_everywhere fd room ((r, fds) ∷ m) = elim (Bool-cases (bytes_eq r room)) [
  | inl here ↦ rw (erase_everywhere, set_at, here) refl
  | inr later ↦ rw (erase_everywhere, set_at, later) (set_at-erase_everywhere fd room m)
]

pub set_at-put :
    (k room : Bytes) (fds : List ℕ) (m : List (Bytes × List ℕ))
    → set_at room (Maps.put k fds m) ≡ (if bytes_eq k room then fds else set_at room m)
unfolding set_at
set_at-put k room fds m = elim (Bool-cases (bytes_eq k room)) [
  | inl same ↦ rw (set_at, get-put k room fds m, same) refl
  | inr other ↦ rw (set_at, get-put k room fds m, other) refl
]

set_at-remove :
    (k room : Bytes) (m : List (Bytes × List ℕ))
    → set_at room (Maps.remove k m) ≡ (if bytes_eq k room then [] else set_at room m)
unfolding set_at
set_at-remove k room m = elim (Bool-cases (bytes_eq k room)) [
  | inl same ↦ rw (set_at, get-remove k room m, same) refl
  | inr other ↦ rw (set_at, get-remove k room m, other) refl
]

is_none_left_sound : (fds : List ℕ) → is_none_left fds ≡ true → fds ≡ []
unfolding is_none_left
is_none_left_sound [] h = refl
is_none_left_sound (x ∷ xs) h = cc

-- The set of a key loses the descriptor, and the others keep it.
pub set_at-erase_member :
    (fd : ℕ) (k room : Bytes) (m : List (Bytes × List ℕ))
    → set_at room (erase_member fd k m)
      ≡ (if bytes_eq k room then erase fd (set_at k m) else set_at room m)
unfolding erase_member
set_at-erase_member fd k room m = elim (Bool-cases (is_none_left (erase fd (set_at k m)))) [
  | inl gone ↦
      rw (erase_member, gone, is_none_left_sound (erase fd (set_at k m)) gone)
        (set_at-remove k room m)
  | inr left ↦ rw (erase_member, left) (set_at-put k room (erase fd (set_at k m)) m)
]

pub add_connection-IsValid :
    (fd : ℕ) (c : WebSocketConn) (s : WebSocketServer) → IsValid s → IsValid (add_connection fd c s)
unfolding add_connection
add_connection-IsValid fd c s h = record {
  joined = λ room g m.
      let old = h.joined room g m in
      has-put fd g (set_on_message_callback c) s.conns ∙ ground arith;
  distinct = h.distinct;
}

pub remove_connection-IsValid :
    (fd : ℕ) (s : WebSocketServer) → IsValid s → IsValid (remove_connection fd s)
unfolding remove_connection
remove_connection-IsValid fd s h = elim (Option-cases (Maps.get fd s.conns)) [
  | inl e ↦ rw (remove_connection, e) h
  | inr (c, e) ↦
      rw (remove_connection, e)
        (record {
          joined = λ room g m.
              let m' =
                sym (
                  ap (member g) (set_at-erase_everywhere fd room s.rooms)
                  ∙ member-erase fd g (set_at room s.rooms))
                ∙ m in
              let old = h.joined room g in has-remove fd g s.conns ∙ ground arith;
          distinct = λ room.
              rw (set_at-erase_everywhere fd room s.rooms)
                (erase-Distinct fd (set_at room s.rooms) (h.distinct room));
        })
]

-- A room that takes in a descriptor of a connection, and one that lets a descriptor go.
pub insert-IsValid :
    (room : Bytes) (fd : ℕ) (s : WebSocketServer)
    → Maps.has fd s.conns ≡ true
    → IsValid s
    → IsValid (record s { rooms = Maps.put room (insert fd (set_at room s.rooms)) s.rooms })
insert-IsValid room fd s here h = record {
  joined = λ other g m. elim (Bool-cases (bytes_eq room other)) [
    | inl same ↦
        let inside =
          sym (
            ap (member g)
              (set_at-put room other (insert fd (set_at room s.rooms)) s.rooms ∙ rw same refl)
            ∙ member-insert fd g (set_at room s.rooms))
          ∙ m in
        let old = h.joined room g in
        let e : fd ≡ g → Maps.has g s.conns ≡ true = λ q. rw (← q) here in ground (arith)
    | inr ne ↦ h.joined other g (
        sym (
          ap (member g)
            (set_at-put room other (insert fd (set_at room s.rooms)) s.rooms ∙ rw ne refl))
        ∙ m)
  ];
  distinct = λ other.
      rw (set_at-put room other (insert fd (set_at room s.rooms)) s.rooms)
        (elim (Bool-cases (bytes_eq room other)) [
          | inl same ↦ rw same (insert-Distinct fd (set_at room s.rooms) (h.distinct room))
          | inr ne ↦ rw ne (h.distinct other)
        ]);
}

pub drop_from_room-IsValid :
    (room : Bytes) (fd : ℕ) (s : WebSocketServer) → IsValid s → IsValid (drop_from_room room fd s)
unfolding drop_from_room
drop_from_room-IsValid room fd s h = record {
  joined = λ other g m. elim (Bool-cases (bytes_eq room other)) [
    | inl same ↦
        let inside =
          sym (
            ap (member g) (set_at-erase_member fd room other s.rooms ∙ rw same refl)
            ∙ member-erase fd g (set_at room s.rooms))
          ∙ m in
        let old = h.joined room g in ground (arith)
    | inr ne ↦
        h.joined other g
          (sym (ap (member g) (set_at-erase_member fd room other s.rooms ∙ rw ne refl)) ∙ m)
  ];
  distinct = λ other.
      rw (set_at-erase_member fd room other s.rooms) (elim (Bool-cases (bytes_eq room other)) [
        | inl same ↦ rw same (erase-Distinct fd (set_at room s.rooms) (h.distinct room))
        | inr ne ↦ rw ne (h.distinct other)
      ]);
}
