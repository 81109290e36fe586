-- ===== src/Accounts.antt =====
-- Users, roles and who may do what: web/accounts.
pub mod Role
pub mod Users
pub mod Requests
pub mod Oidc
pub mod Service
pub mod Privilege
pub mod Examples
