-- ===== src/Uid.antt =====
-- The identifiers of clients and queries: src/shared/Utils.cpp and Utils.h.
pub mod Bits
pub mod Make
pub mod Laws
pub mod Host
pub mod Exec
pub mod Scan
mod Tests
