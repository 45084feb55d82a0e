-- ===== src/Sanitize.antt =====
-- The sanitization service: src/SanitizationService.
pub mod Regex
pub mod Handler
pub mod Laws
mod Tests
