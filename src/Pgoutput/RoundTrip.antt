-- ===== src/Pgoutput/RoundTrip.antt =====
-- src/source/postgres/pgoutput.rs: reading back what the encoder puts.
pub mod Fields
pub mod Messages
