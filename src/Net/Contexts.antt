-- ===== src/Net/Contexts.antt =====
-- hiredis.c: contexts with their sockets: redisConnect and its variants, redisReconnect, redisFree.
pub mod Closes
pub mod Async
use multiplexing_hiredis.Common.{
  ℕ, ◌==◌, Bool, true, false, Option, none, some, List, [], ◌∷◌, if◌then◌else◌, Bytes,
}
use multiplexing_hiredis.Common.Outcome.{Outcome, ok, abort}
use multiplexing_hiredis.Reader.State.{no_error, Status, redis_ok, redis_err}
use multiplexing_hiredis.Reader.Api
use multiplexing_hiredis.Context.{RedisContext, context_init}
use multiplexing_hiredis.Net.Timeout.{Timeval}
use multiplexing_hiredis.Net.State.{
  ErrorNumber, Logged, closed, Os, ConnectionType, conn_tcp, conn_unix, Net,
}
use multiplexing_hiredis.Net.Calls.{keep_alive, context_set_timeout}
use multiplexing_hiredis.Net.Connect.{mark_connected, connect_tcp, connect_unix}

-- REDIS_KEEPALIVE_INTERVAL
abbrev pub keepalive_interval : ℕ
keepalive_interval = 15

-- The variants of redisConnect: the address, the timeout, the source address and whether REDIS_BLOCK
-- and REDIS_REUSEADDR are set; or the path of a local socket.
pub data Dial : Type 0 where
  dial_tcp : Bytes → ℕ → Option Timeval → Option Bytes → Bool → Bool → Dial
  dial_unix : Bytes → Option Timeval → Bool → Dial

module _ {Obj Store Address : Type 0} where
  -- A context without a connection; calloc has made its `fd` 0 and its type REDIS_CONN_TCP.
  abbrev pub unconnected : ErrorNumber → RedisContext Obj Store → Net Obj Store Address
  unconnected errno c = record {
    context = c;
    fd = some 0;
    reuseaddr = false;
    connection_type = conn_tcp;
    host = none;
    port = 0;
    source_addr = none;
    path = none;
    timeout = none;
    errno = errno;
    log = [];
  }

  -- REDIS_BLOCK, set or not
  unfoldable pub with_block : Bool → Net Obj Store Address → Net Obj Store Address
  with_block block n =
      let c = n.context in
      record n { context = record c { flags = record (c.flags) { block = block } } }

  -- The socket's part of redisFree; the memory is not modelled.
  unfoldable pub free : Net Obj Store Address → List (Logged Address)
  free n = elim (n.fd) [ none ↦ n.log | some s ↦ if s == 0 then n.log else closed s ∷ n.log ]

  -- redisFreeKeepFd
  unfoldable pub free_keep_fd : Net Obj Store Address → Option ℕ × List (Logged Address)
  unfolding free
  free_keep_fd n = (n.fd, free (record n { fd = none }))

  module _ (os : Os Address) where
    -- The call of net.c that follows redisContextInit; its status is not looked at.
    unfoldable pub dialled : Dial → Net Obj Store Address → Net Obj Store Address
    unfolding connect_tcp connect_unix with_block
    dialled (dial_tcp ip port timeout source_addr block reuse) n =
        (connect_tcp os (some ip) port timeout source_addr
          (with_block block (record n { reuseaddr = reuse }))).1
    dialled (dial_unix path timeout block) n = (connect_unix os path timeout (with_block block n)).1

    module _ (memory : Bool) (store : Store) (errno : ErrorNumber) where
      -- redisContextInit and the call; `memory` tells whether the allocations succeed.
      unfoldable pub made_and_dialled : Dial → Option (Net Obj Store Address)
      unfolding context_init dialled
      made_and_dialled d = elim (context_init memory store) [
        | none ↦ none
        | some c ↦ some (dialled d (unconnected errno c))
      ]

      -- redisConnect
      unfoldable pub connect : Bytes → ℕ → Option (Net Obj Store Address)
      unfolding made_and_dialled
      connect ip port = made_and_dialled (dial_tcp ip port none none true false)

      -- redisConnectWithTimeout
      unfoldable pub connect_with_timeout : Bytes → ℕ → Timeval → Option (Net Obj Store Address)
      unfolding made_and_dialled
      connect_with_timeout ip port tv =
          made_and_dialled (dial_tcp ip port (some tv) none true false)

      -- redisConnectNonBlock
      unfoldable pub connect_non_block : Bytes → ℕ → Option (Net Obj Store Address)
      unfolding made_and_dialled
      connect_non_block ip port = made_and_dialled (dial_tcp ip port none none false false)

      -- redisConnectBindNonBlock, which uses the context without a test for NULL
      unfoldable pub connect_bind_non_block :
          Bytes → ℕ → Option Bytes → Outcome (Net Obj Store Address)
      unfolding made_and_dialled
      connect_bind_non_block ip port source_addr =
          elim (made_and_dialled (dial_tcp ip port none source_addr false false)) [
            | none ↦ abort
            | some n ↦ ok n
          ]

      -- redisConnectBindNonBlockWithReuse, in the same way
      unfoldable pub connect_bind_non_block_with_reuse :
          Bytes → ℕ → Option Bytes → Outcome (Net Obj Store Address)
      unfolding made_and_dialled
      connect_bind_non_block_with_reuse ip port source_addr =
          elim (made_and_dialled (dial_tcp ip port none source_addr false true)) [
            | none ↦ abort
            | some n ↦ ok n
          ]

      -- redisConnectUnix
      unfoldable pub connect_path : Bytes → Option (Net Obj Store Address)
      unfolding made_and_dialled
      connect_path path = made_and_dialled (dial_unix path none true)

      -- redisConnectUnixWithTimeout
      unfoldable pub connect_path_with_timeout : Bytes → Timeval → Option (Net Obj Store Address)
      unfolding made_and_dialled
      connect_path_with_timeout path tv = made_and_dialled (dial_unix path (some tv) true)

      -- redisConnectUnixNonBlock
      unfoldable pub connect_path_non_block : Bytes → Option (Net Obj Store Address)
      unfolding made_and_dialled
      connect_path_non_block path = made_and_dialled (dial_unix path none false)

      -- redisConnectFd; the descriptor was opened by the caller.
      unfoldable pub connect_fd : Option ℕ → Option (Net Obj Store Address)
      unfolding context_init with_block mark_connected
      connect_fd fd = elim (context_init memory store) [
        | none ↦ none
        | some c ↦
            some (mark_connected (with_block true (record (unconnected errno c) { fd = fd })))
      ]

    -- redisSetTimeout
    unfoldable pub set_timeout : Timeval → Net Obj Store Address → Status × Net Obj Store Address
    unfolding context_set_timeout
    set_timeout tv n = if n.context.flags.block then context_set_timeout os tv n else (redis_err, n)

    -- redisEnableKeepAlive
    unfoldable pub enable_keep_alive : Net Obj Store Address → Status × Net Obj Store Address
    unfolding keep_alive
    enable_keep_alive = keep_alive os keepalive_interval

    -- The start of redisReconnect: the socket is closed, but its number stays in `fd`.
    unfoldable pub drop_connection : Store → Net Obj Store Address → Net Obj Store Address
    unfolding free Api.create
    drop_connection store n =
        let c = n.context in
        record n {
          context = record c { err = no_error; errstr = []; obuf = []; reader = Api.create store };
          log = free n;
        }

    -- The end of redisReconnect for a path; a context of this type has one.
    unfoldable pub reconnect_unix :
        Option Bytes → Net Obj Store Address → Status × Net Obj Store Address
    unfolding connect_unix
    reconnect_unix none n = (redis_err, n)
    reconnect_unix (some path) n = connect_unix os path n.timeout n

    -- The end of redisReconnect, from the connection's type.
    unfoldable pub reconnect_by :
        ConnectionType → Net Obj Store Address → Status × Net Obj Store Address
    unfolding connect_tcp reconnect_unix
    reconnect_by conn_tcp n = connect_tcp os n.host n.port n.timeout n.source_addr n
    reconnect_by conn_unix n = reconnect_unix n.path n

    -- redisReconnect
    unfoldable pub reconnect : Store → Net Obj Store Address → Status × Net Obj Store Address
    unfolding drop_connection reconnect_by
    reconnect store n = reconnect_by n.connection_type (drop_connection store n)
