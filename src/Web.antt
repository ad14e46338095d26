-- ===== src/Web.antt =====
-- Package internal/web: the tokens of the gate, the middleware in front of every page, and the
-- handlers that open and close it.
pub mod Auth
pub mod Client
pub mod Gate
pub mod Grants
pub mod Forms
pub mod Entry
pub mod Site
