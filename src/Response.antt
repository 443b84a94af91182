-- ===== src/Response.antt =====
-- backend/app/services/response_actions.py, the approvals of platform_api.py, and the case workflow
-- of main.py. The clock is read once for each request, and ids that the source draws at random are
-- arguments.
pub mod Repository
pub mod Approvals
pub mod Execute
pub mod Workflow
pub mod TwoPerson
pub mod Acting
pub mod Effects
pub mod Transitions
pub mod Samples
mod Examples
