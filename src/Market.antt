-- ===== src/Market.antt =====
-- protocol/types.go and protocol/unit.go: the markets, and the security codes of each.
pub mod Exchange
pub mod Kinds
pub mod Symbol
pub mod Decode
pub mod Exclusive
pub mod Prefixed
pub mod Names
pub mod Parse
