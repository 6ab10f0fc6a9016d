-- ===== src/Net.antt =====
-- The TCP layer of src/net/tcp.
pub mod Shared
pub mod TcpLink
pub mod Returns
pub mod TcpClient
pub mod TcpServer
pub mod TcpManager
pub mod Libuv
pub mod Isolation
pub mod Stops
pub mod Writes
