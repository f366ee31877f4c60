-- ===== src/Pull.antt =====
-- extend/pull: candles that are merged by the calendar or by trading sessions.
pub mod Candles
pub mod Dates
pub mod Calendar
pub mod Order
pub mod Periods
pub mod Whole
pub mod Sessions
pub mod Minutes
pub mod Coverage
