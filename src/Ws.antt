-- ===== src/Ws.antt =====
-- The WebSocket client (include/sipdemo/WsClient.h, src/ws/WsClient.cpp).
pub mod Url
pub mod Frame
pub mod Client
pub mod Connect
