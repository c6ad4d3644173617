-- ===== src/Refine.antt =====
-- How the daemon's functions relate to the moves of the abstract seat: from the view of the state
-- before a call to the view of the state after it.
pub mod Frames
pub mod Clients
pub mod Disabling
pub mod Adding
pub mod Removal
pub mod Switching
pub mod Handlers
pub mod Messages
