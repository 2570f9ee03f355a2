-- ===== src/Recycler.antt =====
-- pkg/hub/controllers/workerslicegwrecycler: the controller that replaces one gateway deployment
-- on the server's cluster and its peer on the client's, by a shared recycler object.
pub mod Names
pub mod Calls
pub mod Helpers
pub mod Machine
pub mod Server
pub mod Client
pub mod Reconcile
pub mod Footprint
pub mod Permitted
pub mod Safety
pub mod Handshake
