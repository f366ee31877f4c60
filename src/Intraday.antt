-- ===== src/Intraday.antt =====
-- protocol/model_minute.go and protocol/model_history_minute.go: the price of each minute of a day.
pub mod Defs
pub mod History
pub mod Today
