-- ===== src/Client.antt =====
-- client.go: the operations that ask the server for one page after another until nothing is left.
-- The answer of the server to a request is a parameter, and the decoders stand in other modules.
pub mod Paging
pub mod Whole
pub mod Until
pub mod Chained
pub mod Resume
pub mod Newest
pub mod Files
pub mod Download
pub mod Same
pub mod Codes
pub mod Session
pub mod Own
pub mod Requests
pub mod Quotes
pub mod Archive
pub mod Opening
