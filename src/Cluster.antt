-- ===== src/Cluster.antt =====
-- internal/cluster: the routing of keys to nodes.
pub mod HashRing
