-- ===== src/Auth.antt =====
-- auth/: users, login sessions, tokens, and the limits on login and registration.
pub mod Models
pub mod Schemas
pub mod Security
pub mod Crud
pub mod Services
pub mod Routes
pub mod Limits
pub mod Failures
pub mod Families
pub mod Caller
pub mod Cookies
pub mod Tests
