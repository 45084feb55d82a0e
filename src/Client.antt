-- ===== src/Client.antt =====
-- The load generator of src/Client/Client.cpp.
pub mod Main
pub mod Successes
pub mod Laws
pub mod Mock
pub mod Sync
pub mod Progress
pub mod Tests
