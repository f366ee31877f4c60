-- ===== src/Tests.antt =====
-- Concrete runs of the code, and each theorem at an input that meets its hypotheses.
mod Wire
mod Market
mod Kline
mod Trade
mod Pool
mod Message
mod Candle
mod Intraday
mod Client
mod Workday
mod Block
mod Pull
mod Quote
mod Server
mod Session
