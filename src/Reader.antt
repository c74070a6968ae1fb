-- ===== src/Reader.antt =====
-- read.c, read.h: the protocol reader. Children: the state (State), the scans over the buffer
-- (Scan), the task stack and the items (Items), the public calls (Api).
pub mod State
pub mod Scan
pub mod Items
pub mod Api
pub mod Progress
pub mod Ends
pub mod Carry
pub mod CarryItem
pub mod Resume
pub mod Chunks
pub mod Build
