-- ===== src/Investigation.antt =====
-- backend/app/services/investigation_ai.py: answers to an analyst's question, from an external model
-- or from the stored evidence.
pub mod Json
pub mod Structure
pub mod Answer
pub mod Investigate
pub mod Grounded
pub mod Local
pub mod Answers
mod Validated
mod Examples
