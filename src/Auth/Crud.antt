-- ===== src/Auth/Crud.antt =====
-- auth/crud: the statements on the users and the sessions tables.
pub mod Users
pub mod Sessions
