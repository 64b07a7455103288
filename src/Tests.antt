-- ===== src/Tests.antt =====
-- The components on concrete inputs.
mod Streams
mod Buffers
mod Clocks
mod Sockets
mod Texts
mod Files
mod Servers
mod Services
mod Disks
mod Messages
mod Loads
mod Loops
