-- ===== src/Catalog.antt =====
-- backend/app/platform_api.py: the stored detection rules with their life cycle.
pub mod Lifecycle
mod Single
mod Examples
