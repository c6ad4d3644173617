-- ===== src/Seat.antt =====
-- seatd/seat.c: the seat, its clients and their devices. The children hold the functions, in the order
-- in which they call one another, and what they prove.
pub mod Vt
pub mod Devices
pub mod Clients
pub mod Switching
pub mod GroupVts
