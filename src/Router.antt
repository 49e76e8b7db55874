-- ===== src/Router.antt =====
-- Tema_1: the data plane of the router.
pub mod Trie
pub mod Checksum
pub mod Queue
pub mod Arp
pub mod HwAddr
pub mod Frame
pub mod Icmp
pub mod Loop
pub mod RouteFile
mod Tests
