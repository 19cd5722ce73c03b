-- ===== src/Transports.antt =====
-- src/transports: the transports over HTTP and over a web socket.
pub mod Http
pub mod Url
pub mod WebSocket
