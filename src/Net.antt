-- ===== src/Net.antt =====
-- Connections: src/net.
pub mod LineProtocol
pub mod TcpClient
pub mod TcpServer
