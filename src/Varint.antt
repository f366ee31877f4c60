-- ===== src/Varint.antt =====
-- protocol/types_price.go: the signed numbers of variable length in a response.
pub mod Bits
pub mod Cut
pub mod RoundTrip
