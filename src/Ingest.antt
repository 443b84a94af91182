-- ===== src/Ingest.antt =====
-- backend/app/platform_api.py, worker.py: telemetry jobs, from the request to the worker.
pub mod Jobs
mod Attempts
mod Examples
