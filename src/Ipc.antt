-- ===== src/Ipc.antt =====
-- src/ThinIPC.cpp: messages between the library and its daemon.
pub mod Words
pub mod Message
pub mod Chunks
pub mod Blocks
pub mod Writes
pub mod Reads
pub mod RoundTrip
pub mod Sending
pub mod Receiving
pub mod Arrival
pub mod Transfer
pub mod Overread
mod Tests
