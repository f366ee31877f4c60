-- ===== src/Wire/Codec.antt =====
-- What the frames look like, and what the two readers make of them.
pub mod Request
pub mod Response
pub mod Reader
