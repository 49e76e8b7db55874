-- ===== src/Broker.antt =====
-- Tema_2: the publish/subscribe broker.
pub mod Wildcard
pub mod Clients
pub mod Topics
pub mod Publish
pub mod Server
pub mod Stream
pub mod Subscriber
mod Tests
