-- ===== src/Server.antt =====
-- The length-prefixed framing of the server over TCP: extend/tcpserver/protocol.go.
pub mod Framing
pub mod Messages
