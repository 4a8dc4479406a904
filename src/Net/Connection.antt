-- ===== src/Net/Connection.antt =====
-- net/Connection: the receive buffer with its parser, and the output queue.
pub mod Defs
pub mod Input
pub mod Output
pub mod Writes
pub mod Accounts
pub mod Stream
pub mod Frames
pub mod Complete
pub mod Run
mod Tests
