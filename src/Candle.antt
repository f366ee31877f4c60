-- ===== src/Candle.antt =====
-- protocol/model_kline.go: the messages that ask for candles and answer with them.
pub mod Float
pub mod Defs
pub mod Bars
pub mod RoundTrip
pub mod Fix
