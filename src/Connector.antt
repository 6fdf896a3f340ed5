-- ===== src/Connector.antt =====
-- packages/connector: the process beside the workers, which dials out to the gateway.
pub mod Outbox
pub mod Connect
pub mod Routes
pub mod Execute
