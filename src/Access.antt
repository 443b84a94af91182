-- ===== src/Access.antt =====
-- backend/app/auth.py: who may do what.
pub mod Roles
mod Grants
mod Examples
