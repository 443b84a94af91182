-- ===== src/Pipeline.antt =====
-- backend/app/services/pipeline.py: from validated telemetry to stored events, findings and
-- incidents.
pub mod Values
pub mod Fields
pub mod History
pub mod Process
pub mod Kept
pub mod Keeps
pub mod Recorded
pub mod Stored
mod Again
mod Annotated
mod RoundTrip
mod Samples
mod Examples
