-- ===== src/Net.antt =====
-- net.c: sockets. The operating system is a record of functions of the calls that were made before,
-- so that it may answer each call as it likes.
pub mod Timeout
pub mod State
pub mod Calls
pub mod Connect
pub mod Contexts
