-- ===== src/Mysql.antt =====
-- Package internal/mysql: quoting, the statements that the program sends, and its SQL splitter.
pub mod Quote
pub mod Driver
pub mod Names
pub mod Accounts
pub mod Databases
pub mod Split
pub mod Script
pub mod Hosts
pub mod Rows
pub mod Preview
pub mod Tables
pub mod Users
