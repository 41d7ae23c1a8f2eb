-- ===== src/Protocol.antt =====
-- The wire: cache_cat/src/raft/types/core/response_value.rs, which encodes a reply for RESP2 or
-- RESP3, and cache_cat/src/protocol/resp.rs, which reads one in two phases.
pub mod Encode
pub mod Parse
pub mod Take
pub mod Lines
pub mod Sent
pub mod Scalars
pub mod Aggregates
pub mod Kinds
pub mod RoundTrip
pub mod Extent
pub mod Fuel
