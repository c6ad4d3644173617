-- ===== src/Client.antt =====
-- seatd/client.c: what becomes of a client's messages. The children hold its functions in the order in
-- which they call one another, and what they prove.
pub mod Lifecycle
pub mod Handlers
pub mod Dispatch
pub mod Partial
