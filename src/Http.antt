-- ===== src/Http.antt =====
-- Tema_3: the HTTP client.
pub mod Buffer
pub mod Requests
pub mod Connection
pub mod Numbers
pub mod Session
pub mod Json
pub mod Commands
mod Tests
