-- ===== src/Incidents/Desk.antt =====
-- src/platform_ops/incidents/desk.py: one ingest of dbt's artifacts into the incident store. Each child is a part of
-- the transaction.
pub mod Tables
pub mod Context
pub mod Open
pub mod Escalate
pub mod Queue
pub mod Writes
pub mod Assign
pub mod Regroup
pub mod Transaction
