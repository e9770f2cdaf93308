-- ===== src/Examples.antt =====
-- Tests and instances on a small project: a source, the staging model that reads it, and the mart that reads that.
mod Samples
mod Lineage
mod Ownership
mod Bootstrap
mod Desk
mod Rerun
mod Order
mod Descent
mod Money
mod Cost
mod Metrics
mod Time
mod Reports
