-- ===== src/Redis.antt =====
-- The Redis client of reply.*, client.*
pub mod Reply
pub mod Command
pub mod Client
