-- ===== src/Nodes.antt =====
-- pkg/cluster/node.go and node_reconciler.go: the addresses of the gateway nodes, kept in a global
-- `NodeInfo` behind a mutex; and `ListEqual` of pkg/hub/utils.go.
pub mod Lists
pub mod Info
pub mod Compare
pub mod Equal
pub mod Refresh
