-- ===== src/Authz.antt =====
-- internal/authz: the policy that maps a verified identity to an account and permissions.
pub mod Sub
pub mod Types
pub mod Pins
pub mod Cel
pub mod Policy
