-- ===== src/TcpPeer.antt =====
-- socket/tcp/main.cpp: a program that connects or accepts, prints what comes, and sends what is
-- typed.
pub mod CommandLine
mod Arguments
pub mod Peer
pub mod Rounds
mod Typed
mod Sent
mod Versions
pub mod Run
mod Once
mod Tests
