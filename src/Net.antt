-- ===== src/Net.antt =====
-- kernel/netstack.c: the network stack of one HTTP client.
pub mod Bytes
pub mod Arp
pub mod World
pub mod Send
pub mod Dns
pub mod Http
pub mod Tcp
pub mod Api
pub mod Poll
mod Tests
