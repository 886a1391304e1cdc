-- ===== src/IocpServer.antt =====
-- win32_programming/use_iocp/iocp_demo: an echo server whose threads wait at a completion port.
pub mod Contexts
pub mod Port
mod Fresh
pub mod Steps
mod Slices
mod Lines
mod Completions
mod Changes
mod Invariant
mod Touches
mod Echo
pub mod Service
mod Pool
mod Tests
