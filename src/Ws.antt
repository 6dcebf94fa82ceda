-- ===== src/Ws.antt =====
-- backend/internal/ws: the WebSocket transport.
pub mod Gateway
pub mod Jobs
pub mod Books
pub mod Hub
