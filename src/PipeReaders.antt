-- ===== src/PipeReaders.antt =====
-- linux_programming/read/nonblock_read/read_from_pipe: four programs that print what two pipes
-- give, with `select`, with `poll`, and with epoll by level and by edge.
pub mod Reading
pub mod Rounds
mod Endings
mod Tests
