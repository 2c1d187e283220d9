-- ===== src/WebSocket.antt =====
-- network/websocket_client.go: frames and messages.
pub mod Frame
pub mod Client
pub mod Handshake
pub mod Listen
