-- ===== src/Block.antt =====
-- The block files and the configuration files of the server: protocol/model_block.go,
-- protocol/model_spblock.go and protocol/model_tdxbk.go.
pub mod Lines
pub mod File
pub mod Messages
pub mod Cells
pub mod RoundTrip
pub mod Config
pub mod Special
pub mod Index
