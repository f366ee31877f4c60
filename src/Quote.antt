-- ===== src/Quote.antt =====
-- Quotes with five levels of prices: protocol/model_quote.go and `DecodeKline` of
-- protocol/types_price.go.
pub mod Defs
pub mod Numbers
pub mod RoundTrip
pub mod Wire
