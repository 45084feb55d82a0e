-- ===== src/Stats.antt =====
-- src/shared/ServerStats.h and ServerStats.cpp: the buffered log of (query, time) entries.
pub mod Csv
pub mod Manager
pub mod Shape
pub mod Invariant
pub mod Dump
pub mod Retention
pub mod Race
pub mod Stream
pub mod Stress
pub mod Digits
pub mod Reader
mod Tests
