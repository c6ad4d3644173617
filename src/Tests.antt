-- ===== src/Tests.antt =====
-- Small scenes on which the functions run, and what the theorems say of them.
mod Scene
mod Buffers
mod Connections
mod Devices
mod Groups
mod Seats
mod Servers
mod Backends
mod Requests
mod Pollers
mod Lifecycles
mod LinkedLists
mod Sockets
