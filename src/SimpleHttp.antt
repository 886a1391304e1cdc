-- ===== src/SimpleHttp.antt =====
-- The HTTP server of simple_http: its tcp_server, http_server, config and log folders.
pub mod Trim
pub mod Request
pub mod Config
pub mod Logger
pub mod Socket
pub mod Handler
pub mod Connection
pub mod Manager
pub mod Threads
pub mod Server
mod Tests
