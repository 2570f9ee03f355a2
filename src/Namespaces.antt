-- ===== src/Namespaces.antt =====
-- The namespaces of a slice, controllers/slice/namespaces.go.
pub mod Calls
pub mod Offboard
pub mod Onboard
pub mod Allowed
pub mod Policies
pub mod Reconcile
