-- ===== src/WebSocket/Server/Removed.antt =====
-- `removeConnection` of src/websocket/WebSocketServer.cpp, and the tables that reach a descriptor.
use linux_cpp_web_server.Common.{
  ℕ, true, false, ◌==◌, ◌≡◌, refl, arith, Option-cases, inl, inr, ap, ◌∙◌, ==_refl,
}
use linux_cpp_web_server.Common.Bytes.{Bytes}
use linux_cpp_web_server.Common.Maps
use linux_cpp_web_server.Common.Maps.{
  nat_key, bytes_key, get-put, get-remove, has-put, has-remove, has-get, has-none,
}
use linux_cpp_web_server.WebSocket.Server.{WebSocketServer, set_at, remove_connection}
use linux_cpp_web_server.WebSocket.Server.Members.{member, member-erase}
use linux_cpp_web_server.WebSocket.Server.Joined.{IsValid, set_at-erase_everywhere}

-- After `removeConnection` the descriptor has no connection and no callback and is in no room, if it
-- was only in rooms as the descriptor of a connection and only such descriptors had a callback; every
-- other descriptor has the connection and the rooms that it had.
pub remove_connection-forgets :
    (fd : ℕ) (s : WebSocketServer)
    → IsValid s
    → ((g : ℕ) → Maps.has g s.fd_callbacks ≡ true → Maps.has g s.conns ≡ true)
    → let t = remove_connection fd s in
      (Maps.has fd t.conns ≡ false)
      × (Maps.has fd t.fd_callbacks ≡ false)
      × ((room : Bytes) → member fd (set_at room t.rooms) ≡ false)
      × ((g : ℕ) → (fd == g) ≡ false → Maps.get g t.conns ≡ Maps.get g s.conns)
      × ((g : ℕ) (room : Bytes)
          → (fd == g) ≡ false
          → member g (set_at room t.rooms) ≡ member g (set_at room s.rooms))
unfolding remove_connection
remove_connection-forgets fd s h cbs = elim (Option-cases (Maps.get fd s.conns)) [
  | inl e ↦
      let gone : Maps.has fd s.conns ≡ false = has-none fd s.conns e in
      rw (remove_connection, e)
        (
          gone,
          (let c = cbs fd in ground arith),
          λ room. (let j = h.joined room fd in ground arith),
          λ g ne. refl,
          λ g room ne. refl,
        )
  | inr (c, e) ↦
      rw (remove_connection, e)
        (
          has-remove fd fd s.conns ∙ rw (==_refl fd) refl,
          has-remove fd fd s.fd_callbacks ∙ rw (==_refl fd) refl,
          λ room.
              ap (member fd) (set_at-erase_everywhere fd room s.rooms)
              ∙ member-erase fd fd (set_at room s.rooms)
              ∙ rw (==_refl fd) refl,
          λ g ne. get-remove fd g s.conns ∙ rw ne refl,
          λ g room ne.
              ap (member g) (set_at-erase_everywhere fd room s.rooms)
              ∙ member-erase fd g (set_at room s.rooms)
              ∙ rw ne refl,
        )
]
