-- ===== src/Cluster.antt =====
-- The controller of the hub's cluster object, pkg/hub/controllers/cluster/.
pub mod Calls
pub mod Deregister
pub mod Location
pub mod Health
pub mod Status
pub mod Dashboard
pub mod Reconcile
pub mod Steps
pub mod Warrant
