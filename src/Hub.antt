-- ===== src/Hub.antt =====
-- apps/web/convex: the hosted app's database and the functions that read and change it.
pub mod Schema
pub mod Base
pub mod Fixtures
pub mod Access
pub mod OAuth
pub mod ErrorGroups
pub mod Ingest
pub mod Alerts
pub mod Invites
pub mod Connectors
pub mod Projects
pub mod ApiKeys
pub mod StatusPages
pub mod Annotations
pub mod Dashboards
