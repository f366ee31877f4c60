-- ===== src/Trade.antt =====
-- protocol/model_trade.go: trades, their wire form, and the candles made of them.
pub mod Defs
pub mod Minute
pub mod Decode
pub mod Bucket
pub mod Conserve
pub mod Envelope
pub mod RoundTrip
