-- ===== src/Io/Codec.antt =====
-- The conversions of common/tftp-io.c between a file and the data bytes of packets.
pub mod Encode
pub mod Decode
pub mod RoundTrip
