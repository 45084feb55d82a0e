-- ===== src/Message.antt =====
-- The message service, which the clients call: src/MessageService.
pub mod Handler
pub mod Laws
pub mod History
pub mod Visits
pub mod DatabaseEntries
pub mod Entries
pub mod Logs
pub mod Connections
pub mod Connected
pub mod Collisions
mod Tests
