-- ===== src/Export.antt =====
-- The controller of service exports, controllers/serviceexport/.
pub mod Calls
pub mod Compare
pub mod Steps
pub mod Reconcile
pub mod Deletion
pub mod Aliases
pub mod Changes
pub mod Hub
pub mod Published
