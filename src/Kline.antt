-- ===== src/Kline.antt =====
-- protocol/model_kline.go: candles, their indicators, and their merging into longer periods.
pub mod Defs
pub mod Indicator
pub mod Merge
pub mod Root
pub mod Modular
pub mod Conserve
pub mod Average
pub mod Smooth
pub mod Macd
pub mod Envelope
pub mod Oscillator
pub mod Window
pub mod Strength
pub mod Rsi
pub mod Atr
