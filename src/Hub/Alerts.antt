-- ===== src/Hub/Alerts.antt =====
-- apps/web/convex/alerts.ts: alert rules, and the sweep that evaluates them.
pub mod Rules
pub mod Status
pub mod Evaluate
pub mod Digest
pub mod Edges
pub mod Sweeps
pub mod Sound
mod Tests
