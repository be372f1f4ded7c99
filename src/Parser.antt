-- ===== src/Parser.antt =====
-- The sFlow datagram parser of src/sflowparser.c and src/sflowparser.h.
pub mod Readers
pub mod Samples
pub mod Counters
pub mod Flow
pub mod Collect
pub mod Bounds
pub mod Encode
pub mod Agents
pub mod Kept
pub mod Signed
pub mod Room
pub mod RoundTrip
