-- ===== src/Detection.antt =====
-- backend/app/services/detection_engine.py. The rules stand in the modules below; `Run` puts them
-- together as `run_detection` does.
pub mod Rules
pub mod Travel
pub mod Mfa
pub mod Devices
pub mod EventRules
pub mod Privilege
pub mod Run
pub mod Registered
pub mod TravelWindow
pub mod Fatigue
pub mod Causes
pub mod Samples
mod Examples
