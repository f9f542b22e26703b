-- ===== src/Wire/RoundTrip.antt =====
-- Reading back what was written.
pub mod Numbers
pub mod Rules
pub mod Account
pub mod Conversation
pub mod Structs
pub mod Packets
pub mod PacketLists
