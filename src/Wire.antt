-- ===== src/Wire.antt =====
-- protocol/unit.go and protocol/frame.go: little-endian numbers, and the frames of the wire.
-- The byte conversions of github.com/injoyai/conv are a parameter, and so is zlib's reader.
pub mod Endian
pub mod Frame
pub mod Stream
pub mod Codec
