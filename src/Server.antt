-- ===== src/Server.antt =====
-- The servent: its state (server_internal.h, request.h), and its operations by source file.
pub mod State
pub mod Packets
pub mod Neighbours
pub mod Join
pub mod Readers
pub mod Files
pub mod Search
pub mod Relay
pub mod Download
pub mod Loop
pub mod Main
pub mod Sound
pub mod Life
pub mod Shutdown
pub mod Display
