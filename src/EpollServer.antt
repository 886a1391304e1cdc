-- ===== src/EpollServer.antt =====
-- linux_programming/socket/server/use_epoll/edge_triggered/main.cpp: a server that answers each text
-- up to a full stop with that text turned around.
pub mod State
pub mod Sessions
pub mod Loop
pub mod Pieces
pub mod Frames
pub mod Links
pub mod Upkeep
pub mod Events
pub mod Release
mod Tests
