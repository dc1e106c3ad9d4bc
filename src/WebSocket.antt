-- ===== src/WebSocket.antt =====
-- include/websocket and src/websocket: frames, one connection, and the server of rooms.
pub mod Frame
pub mod Conn
pub mod Server
