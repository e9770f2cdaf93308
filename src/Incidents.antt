-- ===== src/Incidents.antt =====
-- src/platform_ops/incidents: from one run's failing checks to incidents, pages and resolutions.
pub mod Events
pub mod Grouping
pub mod Policy
pub mod Routing
pub mod Ingest
pub mod Desk
pub mod Metrics
