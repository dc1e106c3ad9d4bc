-- ===== src/WebSocket/Server.antt =====
-- src/websocket/WebSocketServer.cpp: the connections, the rooms and the users. `conns_` maps a
-- descriptor to its connection, `fd_callbacks_` to the callback of its reactor, named by a number, and
-- `triggered` records the calls of those callbacks. The JSON library is a parameter; `ts` is what the
-- clock shows when a message is made. Log lines are left out.
pub mod Members
pub mod Frames
pub mod Joined
pub mod Rooms
pub mod Removed
pub mod Broadcast
pub mod Messages
pub mod Tests
use linux_cpp_web_server.Common.{
  ℕ, suc, Bool, true, false, not, ◌&&◌, ◌||◌, Option, none, some, List, [], ◌∷◌, ◌++◌, ◌==◌,
  if◌then◌else◌, map,
}
use linux_cpp_web_server.Common.Bytes.{Bytes, codes, is_empty, bytes_eq}
use linux_cpp_web_server.Common.Maps
use linux_cpp_web_server.Common.Maps.{nat_key, bytes_key}
use linux_cpp_web_server.Tools.{Action, write}
use linux_cpp_web_server.WebSocket.Conn.{
  WebSocketConn, send_text, write_buffer_empty, set_on_message_callback,
}
use Members.{member, insert, erase, is_none_left}

pub record WebSocketServer : Type 0 where
  pub conns : List (ℕ × WebSocketConn)
  pub rooms : List (Bytes × List ℕ)
  pub users : List (Bytes × List ℕ)
  pub fd_callbacks : List (ℕ × ℕ)
  pub sessions : List (Bytes × Bytes)
  pub triggered : List (ℕ × ℕ × Action)

pub init : List (Bytes × Bytes) → WebSocketServer
init sessions = record {
  conns = [];
  rooms = [];
  users = [];
  fd_callbacks = [];
  sessions = sessions;
  triggered = [];
}

-- `m[k]` of a map to sets, as a value.
pub set_at : Bytes → List (Bytes × List ℕ) → List ℕ
set_at k m = elim (Maps.get k m) [ none ↦ [] | some fds ↦ fds ]

pub username_of : Option WebSocketConn → Bytes
username_of none = []
username_of (some c) = c.username

unfoldable pub register_callback : ℕ → ℕ → WebSocketServer → WebSocketServer
register_callback fd cb s = record s { fd_callbacks = Maps.put fd cb s.fd_callbacks }

unfoldable pub add_connection : ℕ → WebSocketConn → WebSocketServer → WebSocketServer
add_connection fd conn s = record s { conns = Maps.put fd (set_on_message_callback conn) s.conns }

unfoldable pub is_websocket_conn : ℕ → WebSocketServer → Bool
is_websocket_conn fd s = Maps.has fd s.conns

pub get_conn : ℕ → WebSocketServer → Option WebSocketConn
get_conn fd s = Maps.get fd s.conns

-- `for (auto& room_pair : rooms_) room_pair.second.erase(fd)`
pub erase_everywhere : ℕ → List (Bytes × List ℕ) → List (Bytes × List ℕ)
erase_everywhere fd [] = []
erase_everywhere fd ((room, fds) ∷ m) = (room, erase fd fds) ∷ erase_everywhere fd m

-- A set without `fd`; the entry goes when nothing is left.
pub erase_member : ℕ → Bytes → List (Bytes × List ℕ) → List (Bytes × List ℕ)
erase_member fd k m =
    if is_none_left (erase fd (set_at k m))
    then Maps.remove k m
    else Maps.put k (erase fd (set_at k m)) m

pub forget_user : ℕ → Bytes → List (Bytes × List ℕ) → List (Bytes × List ℕ)
forget_user fd username users = if is_empty username then users else erase_member fd username users

unfoldable pub remove_connection : ℕ → WebSocketServer → WebSocketServer
remove_connection fd s = elim (Maps.get fd s.conns) [
  | none ↦ s
  | some c ↦ record s {
    rooms = erase_everywhere fd s.rooms;
    users = forget_user fd c.username s.users;
    conns = Maps.remove fd s.conns;
    fd_callbacks = Maps.remove fd s.fd_callbacks;
  }
]

-- `cb_it->second(fd, Action::Write)`, if there is a callback.
pub trigger : ℕ → WebSocketServer → WebSocketServer
trigger fd s = elim (Maps.get fd s.fd_callbacks) [
  | none ↦ s
  | some cb ↦ record s { triggered = (cb, fd, write) ∷ s.triggered }
]

-- `send_text` on a connection of the table, and the callback: always, or only where the write buffer
-- was empty.
pub put_text : ℕ → Bytes → WebSocketConn → WebSocketServer → WebSocketServer
put_text fd text c s = record s { conns = Maps.put fd (send_text text c) s.conns }

pub deliver_to : ℕ → Bytes → WebSocketServer → WebSocketServer
deliver_to fd text s = elim (Maps.get fd s.conns) [
  | none ↦ s
  | some c ↦
      if write_buffer_empty c then trigger fd (put_text fd text c s) else put_text fd text c s
]

pub is_excluded : Option ℕ → ℕ → Bool
is_excluded none fd = false
is_excluded (some exclude_fd) fd = fd == exclude_fd

-- The loop over the room's members. An `exclude_fd` of -1 is `none`.
pub broadcast_to : List ℕ → Bytes → Option ℕ → WebSocketServer → WebSocketServer
broadcast_to [] message exclude s = s
broadcast_to (fd ∷ fds) message exclude s =
    broadcast_to fds message exclude (if is_excluded exclude fd then s else deliver_to fd message s)

pub broadcast_room : Bytes → Bytes → Option ℕ → WebSocketServer → WebSocketServer
broadcast_room room message exclude s = elim (Maps.get room s.rooms) [
  | none ↦ s
  | some fds ↦ broadcast_to fds message exclude s
]

pub session_user : Bytes → WebSocketServer → Bytes
session_user sessionid s = elim (Maps.get sessionid s.sessions) [ none ↦ [] | some u ↦ u ]

-- The sender that a message names has to be the user of the connection that it came by.
pub is_sender : ℕ → Bytes → WebSocketServer → Bool
is_sender fd from s = elim (Maps.get fd s.conns) [
  | none ↦ false
  | some c ↦ bytes_eq c.username from
]

pub drop_from_room : Bytes → ℕ → WebSocketServer → WebSocketServer
drop_from_room room fd s = record s { rooms = erase_member fd room s.rooms }

-- What the server itself says, before it is printed.
pub data Notice : Type 0 where
  system : Bytes → Notice
  authenticated : Bytes → Notice

-- What an operation leaves that began with `s`; `none` is an exception before any change.
pub left_by : WebSocketServer → Option WebSocketServer → WebSocketServer
left_by s none = s
left_by s (some t) = t

-- `dump` of the JSON library throws on a text that is not UTF-8, and then it is `none`. The operations
-- answer the server that they leave: `handleMessage` catches the exception, and what was changed before it
-- stays changed.
module _ (dump : Notice → ℕ → Option Bytes) where
  -- A system message to a room, from a user that is known; `none` is an exception.
  pub announce : Bytes → Bytes → Bytes → ℕ → WebSocketServer → Option WebSocketServer
  announce room username what ts s =
      if is_empty username then some s else elim (dump (system (username ++ what ++ room)) ts) [
        | none ↦ none
        | some text ↦ some (broadcast_room room text none s)
      ]

  pub join_room : Bytes → ℕ → ℕ → WebSocketServer → WebSocketServer
  join_room room fd ts s = elim (Maps.get fd s.conns) [
    | none ↦ s
    | some c ↦
        let joined : WebSocketServer = record s {
          rooms = Maps.put room (insert fd (set_at room s.rooms)) s.rooms;
        } in
        left_by joined (announce room c.username (codes " joined room ") ts joined)
  ]

  -- An exception leaves the member in the room.
  pub leave_room : Bytes → ℕ → ℕ → WebSocketServer → WebSocketServer
  leave_room room fd ts s = elim (Maps.get room s.rooms) [
    | none ↦ s
    | some fds ↦
        elim (announce room (username_of (Maps.get fd s.conns)) (codes " left room ") ts s) [
          | none ↦ s
          | some t ↦ drop_from_room room fd t
        ]
  ]

  -- A system message to one connection, which is told to write whatever its buffer holds.
  pub answer : ℕ → Notice → ℕ → WebSocketServer → WebSocketServer
  answer fd notice ts s = elim (Maps.get fd s.conns) [
    | none ↦ s
    | some c ↦ elim (dump notice ts) [ none ↦ s | some text ↦ trigger fd (put_text fd text c s) ]
  ]

  -- The user of the connection, which `authenticate` sets before it makes its message.
  pub set_username : ℕ → Bytes → WebSocketConn → WebSocketServer → WebSocketServer
  set_username fd username c s = record s {
    conns = Maps.put fd (record c { username = username }) s.conns;
    users = Maps.put username (insert fd (set_at username s.users)) s.users;
  }

  pub authenticate : ℕ → Bytes → ℕ → WebSocketServer → WebSocketServer
  authenticate fd username ts s = elim (Maps.get fd s.conns) [
    | none ↦ s
    | some c ↦ elim (dump (authenticated username) ts) [
      | none ↦ set_username fd username c s
      | some text ↦
          trigger fd
            (put_text fd text (record c { username = username }) (set_username fd username c s))
    ]
  ]

  pub with_session : ℕ → Bytes → ℕ → WebSocketServer → WebSocketServer
  with_session fd sessionid ts s =
      if is_empty sessionid
      then answer fd (system (codes "Authentication failed: missing sessionid")) ts s
      else if is_empty (session_user sessionid s)
      then answer fd (system (codes "Authentication failed: invalid session")) ts s
      else authenticate fd (session_user sessionid s) ts s

  pub room_action : ℕ → Bytes → Bytes → ℕ → WebSocketServer → WebSocketServer
  room_action fd action room ts s =
      if is_empty room
      then s
      else if bytes_eq action (codes "join")
      then join_room room fd ts s
      else if bytes_eq action (codes "leave")
      then leave_room room fd ts s
      else s
