-- ===== src/WebSocket/Server/Tests.antt =====
-- A server with two connections and a room.
use linux_cpp_web_server.Common.{
  ℕ, ◌≡◌, refl, ap, true, false, Option, none, some, [], ◌∷◌, ◌==◌, if◌then◌else◌,
}
use linux_cpp_web_server.Common.Bytes.{Bytes, codes, bytes_eq, is_empty}
use linux_cpp_web_server.Common.Maps
use linux_cpp_web_server.Common.Maps.{nat_key, bytes_key}
use linux_cpp_web_server.WebSocket.Conn.{WebSocketConn}
use linux_cpp_web_server.WebSocket.Conn
use linux_cpp_web_server.WebSocket.Server.{
  WebSocketServer, Notice, system, authenticated, init, set_at, add_connection, remove_connection,
  broadcast_room, join_room, announce, left_by,
}
use linux_cpp_web_server.WebSocket.Server.Members.{member, insert}
use linux_cpp_web_server.WebSocket.Server.Joined.{IsValid, add_connection-IsValid, empty-IsValid}
use linux_cpp_web_server.WebSocket.Server.Rooms.{join_room-IsValid}
use linux_cpp_web_server.WebSocket.Server.Broadcast.{after, is_addressed, broadcast_room-delivers}
use linux_cpp_web_server.WebSocket.Server.Removed.{remove_connection-forgets}
use linux_cpp_web_server.WebSocket.Server.Messages.{handle_message}
use linux_cpp_web_server.WebSocket.Server.Messages.Valid.{handle_message-IsValid}
use linux_cpp_web_server.WebSocket.Server.Messages.Sender.{handle_message-impostor}

-- A stand-in for the JSON library: a message is its type, and it has this one field.
abbrev parse_json : Bytes → Option Bytes
parse_json msg = some msg

abbrev value : Bytes → Bytes → Option Bytes
value k j =
    if bytes_eq k (codes "type")
    then some j
    else if bytes_eq k (codes "subtype")
    then some (codes "room_msg")
    else if bytes_eq k (codes "from")
    then some (codes "bob")
    else some (codes "join")

-- It throws on an empty text.
abbrev dump : Notice → ℕ → Option Bytes
dump (system text) ts = if is_empty text then none else some text
dump (authenticated user) ts = if is_empty user then none else some user

abbrev chat_text : Bytes → Bytes → Bytes → Bytes → ℕ → Option Bytes
chat_text j from room content ts = some content

abbrev with_two : WebSocketServer
with_two = add_connection 8 (Conn.init 8) (add_connection 7 (Conn.init 7) (init []))

abbrev with_room : WebSocketServer
with_room = join_room dump (codes "r") 7 0 with_two

with_room-IsValid : IsValid with_room
with_room-IsValid = join_room-IsValid dump (codes "r") 7 0 with_two (
    add_connection-IsValid 8 (Conn.init 8) (add_connection 7 (Conn.init 7) (init []))
      (add_connection-IsValid 7 (Conn.init 7) (init []) (empty-IsValid [])))

in_room : set_at (codes "r") with_room.rooms ≡ 7 ∷ []
unfolding set_at join_room left_by add_connection init announce insert member Maps.get Maps.put
    bytes_eq is_empty Conn.init Conn.set_on_message_callback
in_room = refl

handle_message-IsValid_example :
    IsValid (handle_message parse_json value dump chat_text 8 (codes "room") 5 with_room)
handle_message-IsValid_example =
    handle_message-IsValid parse_json value dump chat_text 8 (codes "room") 5 with_room
      with_room-IsValid

broadcast_room-delivers_example :
    Maps.get 7 (broadcast_room (codes "r") (codes "hello") (some 8) with_room).conns
    ≡ after
        (is_addressed (set_at (codes "r") with_room.rooms) (some 8) 7)
        (codes "hello")
        (Maps.get 7 with_room.conns)
broadcast_room-delivers_example =
    broadcast_room-delivers (codes "r") (codes "hello") (some 8) with_room 7
      (with_room-IsValid.distinct (codes "r"))

no_callbacks :
    (g : ℕ) → Maps.has g with_room.fd_callbacks ≡ true → Maps.has g with_room.conns ≡ true
unfolding join_room left_by add_connection init announce is_empty Maps.has Maps.get Maps.put
    Conn.init Conn.set_on_message_callback
no_callbacks g h = cc

remove_connection-forgets_example :
    let t = remove_connection 7 with_room in
    (Maps.has 7 t.conns ≡ false)
    × (Maps.has 7 t.fd_callbacks ≡ false)
    × ((room : Bytes) → member 7 (set_at room t.rooms) ≡ false)
    × ((g : ℕ) → (7 == g) ≡ false → Maps.get g t.conns ≡ Maps.get g with_room.conns)
    × ((g : ℕ) (room : Bytes)
        → (7 == g) ≡ false
        → member g (set_at room t.rooms) ≡ member g (set_at room with_room.rooms))
remove_connection-forgets_example =
    remove_connection-forgets 7 with_room with_room-IsValid no_callbacks

abbrev ann : WebSocketConn
ann = record {
  fd = 9;
  username = codes "ann";
  read_buf = [];
  write_buf = [];
  has_callback = true;
  closed = false;
}

abbrev with_ann : WebSocketServer
with_ann = record {
  conns = (9, ann) ∷ [];
  rooms = (codes "r", 9 ∷ []) ∷ [];
  users = (codes "ann", 9 ∷ []) ∷ [];
  fd_callbacks = (9, 0) ∷ [];
  sessions = [];
  triggered = [];
}

handle_message-impostor_example :
    handle_message parse_json value dump chat_text 9 (codes "chat") 5 with_ann ≡ with_ann
unfolding Maps.get bytes_eq
handle_message-impostor_example =
    handle_message-impostor parse_json value dump chat_text 9 (codes "chat") (codes "chat")
      (codes "bob") 5 with_ann ann refl refl refl refl refl
      (λ e. let differ = ap (λ name. bytes_eq name (codes "bob")) e in cc)
