-- ===== src/Http.antt =====
-- Abstractions/Http/HttpTypes.hpp: the messages of HTTP, written for the network and read from it.
mod Examples
pub mod Languages
pub mod Tags
pub mod Types
pub mod Print
pub mod Write
pub mod Read
pub mod Files
