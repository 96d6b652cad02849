-- ===== src/Ledger.antt =====
-- backend/src/tradinghub/ledger: accounts and the money moving through them.
pub mod Models
pub mod Schemas
pub mod Crud
pub mod Services
pub mod Routes
pub mod Balances
pub mod Booking
pub mod Pages
pub mod Deleting
pub mod Editing
pub mod Updating
pub mod Failures
pub mod Summary
pub mod Transfers
pub mod Consistent
pub mod Conserving
pub mod Undoing
mod Tests
