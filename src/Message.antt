-- ===== src/Message.antt =====
-- The smaller messages: protocol/model_connect.go, protocol/model_count.go, protocol/model_code.go,
-- protocol/model_call_auction.go and protocol/model_history_trade.go.
pub mod Basic
pub mod Auction
pub mod PastTrade
pub mod Gbbq
pub mod Company
