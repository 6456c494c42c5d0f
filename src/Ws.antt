-- ===== src/Ws.antt =====
-- internal/transport/ws: connections, the hub, the dispatcher and the handshake.
pub mod Conn
pub mod Hub
pub mod Handler
pub mod Handshake
pub mod Loops
