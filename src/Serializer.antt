-- ===== src/Serializer.antt =====
-- The binary format: src/storage/serializer, and the types that are kept in it.
pub mod Reader
pub mod Format
pub mod RoundTrip
pub mod Maps
pub mod MapRoundTrip
pub mod Optional
