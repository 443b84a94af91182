-- ===== src/Correlation.antt =====
-- backend/app/services/correlation_engine.py.
pub mod Score
pub mod Candidates
pub mod Groups
pub mod Infer
pub mod ScoreLaws
pub mod Pairs
pub mod Complete
pub mod Coverage
pub mod Search
pub mod Reach
pub mod Total
pub mod Agreement
pub mod Graph
mod GraphLaws
pub mod Samples
mod Examples
