-- ===== src/Ledger/Crud.antt =====
-- ledger/crud: the queries. None of them commits, and each one names the user.
pub mod Accounts
pub mod Transactions
pub mod Summary
