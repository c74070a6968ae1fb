-- ===== src/Async.antt =====
-- async.c, async.h: the asynchronous context. Children: the state and its callbacks (State),
-- how a context ends (Teardown), commands (Commands), events on the socket (Events).
pub mod State
pub mod Teardown
pub mod Commands
pub mod Events
pub mod Laws
pub mod Accept
pub mod Ends
pub mod Plain
pub mod Arguments
pub mod Replies
