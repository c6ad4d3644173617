-- ===== src/Libseat.antt =====
-- libseat: the client's side. The children hold libseat/backend/seatd.c, from the state up to the
-- requests, and libseat/libseat.c; and what they prove.
pub mod State
pub mod Reading
pub mod Requests
pub mod Opening
pub mod Noop
pub mod Choice
pub mod Inbox
pub mod Arrival
pub mod Response
pub mod Answers
pub mod Errors
pub mod Sound
pub mod Pending
pub mod Wire
