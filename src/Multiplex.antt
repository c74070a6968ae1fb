-- ===== src/Multiplex.antt =====
-- hiredis.c: the multiplexing client: several threads send commands over one connection, which the
-- thread of the event loop serves. Children: the life of one command between both threads (Life,
-- with its laws), the queue of a connection, the task that sends it, the calls for a command,
-- opening, reconnecting and freeing connections, and the callbacks of a connection (Callbacks).
pub mod Life
pub mod State
pub mod Tasks
pub mod Reconnect
pub mod Commands
pub mod Connect
pub mod Free
pub mod Callbacks
