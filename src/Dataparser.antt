-- ===== src/Dataparser.antt =====
-- The conversation statistics of src/dataparser.c and src/dataparser.h.
pub mod Packet
pub mod Keys
pub mod Conversations
pub mod Table
pub mod Process
