-- ===== src/Common.antt =====
-- src/platform_ops/common: what the other parts share.
pub mod Clock
