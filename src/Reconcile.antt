-- ===== src/Reconcile.antt =====
-- src/platform_ops/reconcile: comparing the legacy warehouse with its copy, night after night.
pub mod Cutover
pub mod Diff
pub mod Grade
pub mod Segments
pub mod Descent
pub mod Explain
