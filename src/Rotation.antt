-- ===== src/Rotation.antt =====
-- The rotation of the VPN keys: pkg/hub/controllers/vpnkeyrotation/.
pub mod Calls
pub mod Status
pub mod Secrets
pub mod Reconcile
pub mod Writes
