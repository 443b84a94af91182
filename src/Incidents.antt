-- ===== src/Incidents.antt =====
-- backend/app/services/correlation_engine.py: how groups of events become incidents, new ones or
-- enriched ones.
pub mod Counting
pub mod Assess
pub mod Cases
pub mod Upsert
pub mod Kept
pub mod Scored
pub mod Keeps
pub mod Shared
pub mod Again
pub mod Actions
mod Samples
mod Examples
