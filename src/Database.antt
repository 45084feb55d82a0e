-- ===== src/Database.antt =====
-- The mock database: src/MockDatabase/MockDatabase.h and MockDatabase.cpp.
pub mod Handler
pub mod Laws
pub mod Threads
pub mod Explained
pub mod Linearizable
pub mod Alone
pub mod Runs
pub mod DataRace
mod Tests
