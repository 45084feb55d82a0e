-- ===== src/ChatRoom.antt =====
-- The chat room of src/old/example/server.
pub mod Handler
pub mod Pages
pub mod Laws
pub mod Client
pub mod Visits
pub mod Tests
