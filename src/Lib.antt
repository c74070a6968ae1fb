-- ===== src/Lib.antt =====
-- A model of this repository's client library: hiredis with a multiplexing client on top of it.
-- A server speaks the Redis protocol over a socket. The reader parses replies out of the bytes that
-- arrive, in any portions; the formatters write commands; the context joins both with a socket; the
-- asynchronous context pairs replies with callbacks; the multiplexing client sends the commands of many
-- threads over one asynchronous context, in the thread of an event loop.
--
-- Which file models which part:
--   Common     shared names, lists over the native numbers, integers of 32 and 64 bits, decimal
--              numbers, and the outcome of a call (a value, an abort, or fuel that ran out).
--   Sds        sds.c: sdscatlen and sdsrange, as the code here uses them.
--   Reader     read.h and read.c. State: types, tasks and errors. Scan: seekNewline and readLongLong
--              (Scan/Find and Scan/Number: their laws). Items: processItem and what it calls. Api:
--              redisReaderFeed and redisReaderGetReply. Build: what the reader makes of a
--              value (Steps: single items; Values: whole values; Replies: a call; Stream: one reply
--              after the other; Fed: a reply that is fed later). Progress, Ends:
--              validity of the reader, and the end of every call. Carry, CarryItem, Resume,
--              Chunks: replies that arrive in portions.
--   Resp       the protocol as a specification: values and how they are written.
--   Format     hiredis.c: countDigits, bulklen, redisFormatCommandArgv, redisFormatSdsCommandArgv
--              (laws: Digits, Command). Vararg: redisvFormatCommand (laws: Spec).
--   Context    hiredis.c: redisContext, redisBufferRead, redisBufferWrite, redisGetReply,
--              redisAppendCommandArgv and their helpers (laws: Laws). Commands: redisCommand and
--              redisCommandArgv (laws: Replied).
--   Replies    hiredis.c: the default functions that make and free replies, on a heap (Layout:
--              where the objects of a value stand, a specification; laws: Make, Release, Whole).
--   Async      async.h and async.c. State: the context, its lists of callbacks. Teardown:
--              __redisAsyncFree and disconnecting. Commands: __redisAsyncCommand. Events:
--              redisProcessCallbacks and the handlers of the socket (laws: Accept and
--              Ends, of commands; Plain, of those that are not special; Arguments, of nextArgument;
--              Laws, of the teardown; Replies, of replies that meet their callbacks).
--   Net        net.c and the functions of hiredis.c that connect. Timeout: redisContextTimeoutMsec.
--              State: a context with its socket, the operating system and the log of its calls.
--              Calls: the operations on one socket. Connect: redisContextConnectTcp and
--              redisContextConnectUnix (laws: Held, Attempts, Ends). Contexts: redisConnect and its
--              variants, redisReconnect, redisFree (laws: Closes), and, in Async, redisAsyncConnect.
--   Multiplex  hiredis.c: the multiplexing client. Life: one command between the thread of its
--              caller, in __xRedisCommand, and that of the event loop, in taskDeal, replyCallback and
--              disconnectedCallback, as steps on one state (laws: Safety, Serial). State: a
--              connection and its queue. Tasks: taskDeal (laws: Order). Reconnect: reconnectDis and an
--              attempt of it (laws: Backoff). Commands: xRedisvCommand and xRedisCommandArgv
--              up to their wait (laws: Sent). Connect: isValidIP and a new connection.
--              Free: xRedisFree and freeAsyncContextDeal (laws: Contexts). Callbacks:
--              connectedCallback and disconnectedCallback (laws: Down).
--   Tests      runs at concrete inputs.
--
-- How code corresponds to definitions: a function of the source has the definition of the same
-- words in lower case, without the prefix `redis` or `__redis`; a structure is a record, with
-- the source's fields. State is passed on explicitly. The reader's stack of tasks is a list with the
-- top first, so that a task's parent is the entry below it. The functions that make replies are a
-- record of functions on a store, a parameter; the default ones are those of Replies. What
-- read(2), write(2) and getsockopt(2) give is an argument of the call. Whether there is memory is a
-- Boolean argument where the code tests for it and the model keeps the test. A failed assertion or
-- an access outside an object is the outcome `abort`.
--
-- In Net the log of the calls tells which descriptors are open. An address is tried again, after
-- EADDRNOTAVAIL, by recursion on the retries that are left, 9 at the start for all addresses together.
--
-- Fuel: redisReaderGetReply runs on the number of bytes plus one, since every item that is
-- processed takes a byte or ends the loop; the formatter runs on the length of its format, since
-- every round passes a byte; the loop over a subscription's arguments runs on the length of the
-- command behind its name plus one. Loops over system calls run over the list of their results. The loop
-- of redisProcessCallbacks and the callbacks of a teardown run on fuel that is an argument, since
-- the callbacks may queue others.
--
-- Threads: in Life each step is what a thread does between two points at which the other can see the
-- shared cmdInfo, and any order of the steps is a run; a use of freed memory marks the state as broken.
-- The other functions of the client run under the mutex of their connection or list.
--
-- Parameters: the reply functions, the C library's printing of a number (vsnprintf), the functions
-- of dict.c, what the user's callbacks do, how a reply object is read, what sscanf
-- finds in an address, and, in Multiplex, what redisContextConnectTcp makes of a context. In Net the
-- answers of socket(2), connect(2), poll(2), getaddrinfo(3) and the like are functions of the calls that
-- were made before; a call that succeeds leaves errno as it was.
--
-- Sizes: where the code keeps a length in an `int`, compares it with one or prints it with %u, the
-- model cuts it to 32 bits as well (Sds.range, Format.format_sds_command_argv), or shows what becomes
-- of a size of malloc(3) that wraps around (Format.allocate); the theorems name the bound below which
-- nothing is cut. In Vararg, and in what comes after an `int` that has become negative, such sizes end
-- in `abort`.
--
-- Not modelled: negative times and negative ports in net.c; the memory that redisFree
-- and redisReaderFree release; the event loop, its adapters and the copies of Redis's library files
-- (ae.c, dict.c, list.c, zmalloc.c and the rest of sds.c); the start of the multiplexing client, which
-- makes its threads, and its end, clearClient; commands that other threads queue on a new context while
-- attachAsyncNoLock waits; source addresses of its connections; the pipe that wakes the event loop, and
-- times; running out of memory inside
-- redisvFormatCommand, inside the callback lists and in dict.c.
pub mod Common
pub mod Sds
pub mod Reader
pub mod Resp
pub mod Format
pub mod Context
pub mod Replies
pub mod Async
pub mod Multiplex
pub mod Net
pub mod Tests
