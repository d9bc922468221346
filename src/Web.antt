-- ===== src/Web.antt =====
-- The web server with a thread pool: p3/src.
pub mod TaskQueue
pub mod Server
pub mod Http
pub mod Semaphore
pub mod Threads
pub mod Log
