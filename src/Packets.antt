-- ===== src/Packets.antt =====
-- The packet layer of LibNetworks: the packet format, and the splitting of a byte stream into packets.
pub mod Packet
pub mod Stream
pub mod Framer
mod Tests
