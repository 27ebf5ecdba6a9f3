-- ===== src/Api.antt =====
-- api/: the client of the server.
pub mod Names
pub mod Pending
pub mod Requests
pub mod Connect
pub mod Caches
pub mod Messages
