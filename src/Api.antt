-- ===== src/Api.antt =====
-- The order service under api/src/.
pub mod Action
pub mod Library
pub mod Database
pub mod Cache
pub mod Server
pub mod Routes
pub mod Table
pub mod Cached
mod Tests
pub mod Load
