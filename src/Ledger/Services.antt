-- ===== src/Ledger/Services.antt =====
-- ledger/services: queries turned into answers, and failures of the database into declared errors.
pub mod Accounts
pub mod Transactions
pub mod Transfers
