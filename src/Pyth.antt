-- ===== src/Pyth.antt =====
-- pyth/: the clients of Pyth, by HTTP requests, by server-sent events and by a websocket.
pub mod WebSocket
pub mod Hermes
pub mod Requests
pub mod Url
pub mod EventSource
