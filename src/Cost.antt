-- ===== src/Cost.antt =====
-- src/platform_ops/cost: what the queries cost and who pays for them.
pub mod Attribution
pub mod Pricing
pub mod Cluster
pub mod Recommend
