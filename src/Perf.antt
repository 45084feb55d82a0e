-- ===== src/Perf.antt =====
-- The load benchmark of src/dep/perf/cpp2 (src/old/example/dep and src/old/working_example/dep hold
-- copies of it).
pub mod Counters
pub mod CountersLaws
pub mod Sums
pub mod Classes
pub mod Load
pub mod SumsLaws
pub mod Registered
pub mod LoadLaws
pub mod Expected
pub mod Events
mod EventCounters
pub mod Delivery
pub mod Start
pub mod Server
pub mod Mains
pub mod MainsLaws
pub mod Promised
pub mod ServerLaws
pub mod Fill
pub mod FillLaws
pub mod Outcomes
pub mod Clients
pub mod Sorted
mod Together
pub mod ClientsLaws
pub mod Tests
mod Runs
