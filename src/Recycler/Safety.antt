-- ===== src/Recycler/Safety.antt =====
-- Every call that the recycler's controller makes is permitted.
pub mod Server
pub mod Client
pub mod Handle
