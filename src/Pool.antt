-- ===== src/Pool.antt =====
-- pool.go: the pool of clients, a buffered channel.
pub mod State
pub mod Keep
pub mod Ready
