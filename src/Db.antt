-- ===== src/Db.antt =====
-- src/db/: the tables, and the operations on them, a module for each file of that folder.
pub mod Tables
pub mod Records
pub mod Devices
pub mod Restore
pub mod Invites
pub mod Accounts
