-- ===== src/Connector.antt =====
-- backend/app/connectors.py: the connectors of identity actions. The HTTP library is a parameter:
-- a function from the calls made so far, the newest first, to what the next call gives. The two
-- clocks are functions of the same calls, in microseconds.
pub mod Auth0
pub mod Routed
mod Requests
mod Targets
mod Limits
mod Examples
