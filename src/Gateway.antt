-- ===== src/Gateway.antt =====
-- The gateway's own package (cmd/gateway): the audit trail around delivery, the checks at start
-- and the handler of /process.
pub mod Audit
pub mod Transaction
pub mod Startup
pub mod Start
pub mod Gate
pub mod Sink
pub mod Metrics
pub mod Wiring
pub mod Readiness
pub mod Limits
pub mod Healthcheck
pub mod Server
pub mod Shutdown
