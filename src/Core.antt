-- ===== src/Core.antt =====
-- backend/src/tradinghub/core: the shared infrastructure.
pub mod Errors
pub mod Database
pub mod Config
pub mod Rendering
pub mod Middleware
pub mod Answers
pub mod Failures
pub mod Logging
pub mod LogLines
pub mod Schemas
pub mod Amounts
mod Tests
