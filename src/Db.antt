-- ===== src/Db.antt =====
-- db/models: the rows that the program stores.
pub mod Rows
pub mod Tables
pub mod Greatest
