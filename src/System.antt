-- ===== src/System.antt =====
-- The client of src/Client against the three services: src/Client, src/MessageService,
-- src/SanitizationService and src/MockDatabase together.
pub mod Converse
pub mod Talk
pub mod Rounds
pub mod Journal
pub mod Courses
pub mod Laws
pub mod Process
pub mod File
pub mod Lost
pub mod Flight
mod Examples
mod Tests
