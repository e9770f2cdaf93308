-- ===== src/Metadata.antt =====
-- src/platform_ops/metadata: the manifest's nodes, the lineage graph, the ownership registry.
pub mod Manifest
pub mod Graph
pub mod Lineage
pub mod Registry
pub mod Check
pub mod Bootstrap
