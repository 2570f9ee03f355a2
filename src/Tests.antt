-- ===== src/Tests.antt =====
-- The theorems at concrete inputs, and runs of the definitions.
mod Cluster
mod Export
mod Gateways
mod Namespaces
mod Nodes
mod Recycler
mod Rotation
mod Webhook
