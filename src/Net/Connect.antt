-- ===== src/Net/Connect.antt =====
-- net.c: connecting: _redisContextConnectTcp over the addresses of a host, and
-- redisContextConnectUnix.
pub mod Held
pub mod Attempts
pub mod Ends
use multiplexing_hiredis.Common.{
  ℕ, zero, suc, ◌++◌, Bool, true, false, not, ◌&&◌, Option, none, some, List, [], ◌∷◌,
  if◌then◌else◌, Bytes, codes, take,
}
use multiplexing_hiredis.Common.Decimal.{print_nat}
use multiplexing_hiredis.Common.Int.{ℤ}
use multiplexing_hiredis.Reader.State.{io, other, Status, redis_ok, redis_err}
use multiplexing_hiredis.Context.{RedisContext}
use multiplexing_hiredis.Net.Timeout.{Timeval, timeout_msec}
use multiplexing_hiredis.Net.State.{
  is_ehostunreach, is_einprogress, is_eaddrnotavail, Family, inet, inet6, so_reuseaddr, setsockopt,
  bind, connect, connect_path, opened, SocketResult, no_socket, socket_made, Resolved, unresolved,
  resolved, Os, conn_tcp, conn_unix, Net,
}
use multiplexing_hiredis.Net.Calls.{
  ◌and_then◌, close_fd, fail_with, set_error_from_errno, perform, ask, set_blocking,
  set_tcp_no_delay, wait_ready,
}

-- REDIS_CONNECT_RETRIES - 1: the retries that `++reuses >= REDIS_CONNECT_RETRIES` lets through.
abbrev pub connect_retries : ℕ
connect_retries = 9

-- How the body of the loop over the addresses ends: with the next address, with `goto addrretry`, or
-- with the end of the function.
pub data Ending (N : Type 0) : Type 0 where
  next retry : N → Ending N
  done : Status → N → Ending N

module _ {Obj Store Address : Type 0} where
  -- `c->flags |= REDIS_CONNECTED`
  unfoldable pub mark_connected : Net Obj Store Address → Net Obj Store Address
  mark_connected n =
      let c = n.context in
      record n { context = record c { flags = record (c.flags) { connected = true } } }

  -- The end of the loop's body, from the status of its last step.
  abbrev pub ended : Status × Net Obj Store Address → Ending (Net Obj Store Address)
  ended (st, n) = done st n

  -- The next step of the loop's body, unless it has ended.
  abbrev pub unless_failed :
      (Net Obj Store Address → Ending (Net Obj Store Address))
      → Status × Net Obj Store Address
      → Ending (Net Obj Store Address)
  unless_failed go (redis_ok, n) = go n
  unless_failed go (redis_err, n) = done redis_err n

  -- `goto addrretry`, with the retries that are left
  unfoldable pub again :
      ℕ
      → (Net Obj Store Address → ℕ × Ending (Net Obj Store Address))
      → Ending (Net Obj Store Address)
      → ℕ × Ending (Net Obj Store Address)
  again left repeat (retry n) = repeat n
  again left repeat (next n) = (left, next n)
  again left repeat (done st n) = (left, done st n)

  -- `continue`; no attempt is left to retry here.
  unfoldable pub onward :
      (ℕ → Net Obj Store Address → Status × Net Obj Store Address)
      → ℕ × Ending (Net Obj Store Address)
      → Status × Net Obj Store Address
  onward continue (left, next n) = continue left n
  onward continue (left, retry n) = (redis_err, n)
  onward continue (left, done st n) = (st, n)

  -- What socket(2) gave.
  unfoldable pub take_socket : SocketResult → Net Obj Store Address → Bool × Net Obj Store Address
  take_socket (no_socket e) n = (false, ask e n)
  take_socket (socket_made s) n = (true, record n { fd = some s; log = opened s ∷ n.log })

  module _ (os : Os Address) where
    -- socket(2), whose number becomes the context's `fd`.
    unfoldable pub make_socket :
        Option Address → Net Obj Store Address → Bool × Net Obj Store Address
    unfolding take_socket
    make_socket a n = take_socket (os.socket n.log a) n

    -- The loop over the source addresses: whether one could be bound.
    unfoldable pub bind_any : List Address → Net Obj Store Address → Bool × Net Obj Store Address
    unfolding perform
    bind_any [] n = (false, n)
    bind_any (b ∷ bs) n =
        let (failed, n') = perform os (bind b) n in
        elim failed [ false ↦ (true, n') | true ↦ bind_any bs n' ]

    -- The socket is bound to one of these addresses, or the error is set.
    unfoldable pub bind_to : List Address → Net Obj Store Address → Status × Net Obj Store Address
    unfolding bind_any fail_with
    bind_to bs n =
        let (bound, n') = bind_any bs n in
        if bound
        then (redis_ok, n')
        else (redis_err, fail_with other (codes "Can't bind socket: " ++ os.strerror n'.errno) n')

    -- SO_REUSEADDR before the bind; a failure leaves the error as it was.
    unfoldable pub reuse_for_bind : Bool → Net Obj Store Address → Status × Net Obj Store Address
    unfolding perform
    reuse_for_bind reuse n =
        if reuse
        then (let (failed, n') = perform os (setsockopt so_reuseaddr) n in
            if failed then (redis_err, n') else (redis_ok, n'))
        else (redis_ok, n)

    -- The socket is bound to what getaddrinfo has found of the source address.
    unfoldable pub bind_found :
        Bool → Resolved Address → Net Obj Store Address → Status × Net Obj Store Address
    unfolding ◌and_then◌ bind_to reuse_for_bind fail_with
    bind_found reuse (unresolved text) n =
        (redis_err, fail_with other (codes "Can't get addr: " ++ text) n)
    bind_found reuse (resolved bs) n = reuse_for_bind reuse n and_then bind_to bs

    -- `if (c->tcp.source_addr)`
    unfoldable pub bind_source :
        Family → Bool → Net Obj Store Address → Status × Net Obj Store Address
    unfolding bind_found
    bind_source family reuse n = elim (n.source_addr) [
      | none ↦ (redis_ok, n)
      | some source ↦
          bind_found reuse (os.getaddrinfo n.log (some source) none family) (ask n.errno n)
    ]

    -- `if (blocking && redisSetBlocking(c,1) != REDIS_OK)`
    unfoldable pub block_again : Bool → Net Obj Store Address → Status × Net Obj Store Address
    unfolding set_blocking
    block_again true n = set_blocking os true n
    block_again false n = (redis_ok, n)

    -- What follows a connect(2) that is made or under way.
    unfoldable pub established : Bool → Net Obj Store Address → Status × Net Obj Store Address
    unfolding ◌and_then◌ block_again set_tcp_no_delay mark_connected
    established blocking n = block_again blocking n and_then set_tcp_no_delay os and_then λ n'.
        (redis_ok, mark_connected n')

    -- What the errno of a failed connect(2) asks for.
    unfoldable pub connect_failed :
        Bool → Bool → ℤ → Net Obj Store Address → Ending (Net Obj Store Address)
    unfolding ◌and_then◌ close_fd wait_ready established
    connect_failed blocking reuse msec n =
        if is_ehostunreach n.errno
        then next (close_fd n)
        else if is_einprogress n.errno && not blocking
        then ended (established blocking n)
        else if is_eaddrnotavail n.errno && reuse
        then retry n
        else ended (wait_ready os msec n and_then established blocking)

    -- connect(2) to one address
    unfoldable pub connect_to :
        Bool → Bool → ℤ → Address → Net Obj Store Address → Ending (Net Obj Store Address)
    unfolding perform established connect_failed
    connect_to blocking reuse msec a n =
        let (failed, n') = perform os (connect a) n in
        if failed then connect_failed blocking reuse msec n' else ended (established blocking n')

    -- The socket is not blocking while it is bound and connected.
    unfoldable pub prepare : Family → Bool → Net Obj Store Address → Status × Net Obj Store Address
    unfolding ◌and_then◌ set_blocking bind_source
    prepare family reuse n = set_blocking os false n and_then bind_source family reuse

    -- One run of the loop's body.
    unfoldable pub attempt :
        Family → Bool → Bool → ℤ → Address → Net Obj Store Address → Ending (Net Obj Store Address)
    unfolding make_socket prepare connect_to
    attempt family blocking reuse msec a n =
        let (made, n') = make_socket (some a) n in
        if made
        then unless_failed (connect_to blocking reuse msec a) (prepare family reuse n')
        else next n'

    -- The attempts at one address, with the retries that are left for this and the next addresses.
    unfoldable pub try_address :
        Family
        → Bool
        → Bool
        → ℤ
        → Address
        → ℕ
        → Net Obj Store Address
        → ℕ × Ending (Net Obj Store Address)
    unfolding attempt again close_fd
    try_address family blocking reuse msec a zero n =
        again zero (λ n'. (zero, done redis_err n')) (attempt family blocking reuse msec a n)
    try_address family blocking reuse msec a (suc left) n =
        again (suc left) (λ n'. try_address family blocking reuse msec a left (close_fd n'))
          (attempt family blocking reuse msec a n)

    -- The loop over the addresses.
    unfoldable pub try_addresses :
        Family
        → Bool
        → Bool
        → ℤ
        → List Address
        → ℕ
        → Net Obj Store Address
        → Status × Net Obj Store Address
    unfolding try_address onward fail_with
    try_addresses family blocking reuse msec [] left n =
        (redis_err, fail_with other (codes "Can't create socket: " ++ os.strerror n.errno) n)
    try_addresses family blocking reuse msec (a ∷ rest) left n =
        onward (λ left' n'. try_addresses family blocking reuse msec rest left' n')
          (try_address family blocking reuse msec a left n)

    -- getaddrinfo for IPv6 where there is no IPv4 address, with the family of the last call.
    unfoldable pub or_ipv6 :
        Resolved Address
        → Option Bytes
        → Bytes
        → Net Obj Store Address
        → Family × Resolved Address × Net Obj Store Address
    or_ipv6 (resolved found) addr service n = (inet, resolved found, n)
    or_ipv6 (unresolved _) addr service n =
        (inet6, os.getaddrinfo n.log addr (some service) inet6, ask n.errno n)

    -- getaddrinfo for IPv4, and for IPv6 if that fails
    unfoldable pub resolve :
        Option Bytes
        → Bytes
        → Net Obj Store Address
        → Family × Resolved Address × Net Obj Store Address
    unfolding or_ipv6
    resolve addr service n =
        or_ipv6 (os.getaddrinfo n.log addr (some service) inet) addr service (ask n.errno n)

    -- The loop over the addresses that were found.
    unfoldable pub connect_found :
        Bool
        → Bool
        → ℤ
        → Family × Resolved Address × Net Obj Store Address
        → Status × Net Obj Store Address
    unfolding fail_with try_addresses
    connect_found blocking reuse msec (family, unresolved text, n) =
        (redis_err, fail_with other text n)
    connect_found blocking reuse msec (family, resolved found, n) =
        try_addresses family blocking reuse msec found connect_retries n

    -- The rest of _redisContextConnectTcp, from the timeout in milliseconds.
    unfoldable pub connect_within :
        Option ℤ
        → Option Bytes
        → Option Bytes
        → Net Obj Store Address
        → Status × Net Obj Store Address
    unfolding fail_with resolve connect_found
    connect_within none addr source_addr n =
        (redis_err, fail_with io (codes "Invalid timeout specified") n)
    connect_within (some msec) addr source_addr n =
        connect_found (n.context.flags.block) (n.reuseaddr) msec
          (resolve addr (take 5 (print_nat n.port)) (record n { source_addr = source_addr }))

    -- _redisContextConnectTcp; only a reconnect of a context without a host passes NULL as the
    -- address.
    unfoldable pub connect_tcp :
        Option Bytes
        → ℕ
        → Option Timeval
        → Option Bytes
        → Net Obj Store Address
        → Status × Net Obj Store Address
    unfolding timeout_msec connect_within
    connect_tcp addr port timeout source_addr n =
        connect_within (timeout_msec timeout) addr source_addr
          (record n { connection_type = conn_tcp; port = port; host = addr; timeout = timeout })

    -- The end of redisContextConnectUnix.
    unfoldable pub unix_established : Bool → Net Obj Store Address → Status × Net Obj Store Address
    unfolding ◌and_then◌ block_again mark_connected
    unix_established blocking n =
        block_again blocking n and_then λ n'. (redis_ok, mark_connected n')

    -- connect(2) to a path, and what its errno asks for.
    unfoldable pub connect_local :
        Bool → ℤ → Bytes → Net Obj Store Address → Status × Net Obj Store Address
    unfolding ◌and_then◌ perform wait_ready unix_established
    connect_local blocking msec path n =
        let (failed, n') = perform os (connect_path path) n in
        if not failed
        then unix_established blocking n'
        else if is_einprogress n'.errno && not blocking
        then unix_established blocking n'
        else wait_ready os msec n' and_then unix_established blocking

    -- redisCreateSocket for AF_LOCAL
    unfoldable pub create_socket : Net Obj Store Address → Status × Net Obj Store Address
    unfolding make_socket set_error_from_errno
    create_socket n =
        let (made, n') = make_socket none n in
        if made then (redis_ok, n') else (redis_err, set_error_from_errno os io [] n')

    -- The rest of redisContextConnectUnix, from the timeout in milliseconds; `sun_path` has room for
    -- 107 chars.
    unfoldable pub connect_unix_within :
        Option ℤ → Bool → Bytes → Net Obj Store Address → Status × Net Obj Store Address
    unfolding connect_local
    connect_unix_within none blocking path n = (redis_err, n)
    connect_unix_within (some msec) blocking path n = connect_local blocking msec (take 107 path) n

    -- redisContextConnectUnix
    unfoldable pub connect_unix :
        Bytes → Option Timeval → Net Obj Store Address → Status × Net Obj Store Address
    unfolding ◌and_then◌ create_socket set_blocking timeout_msec connect_unix_within
    connect_unix path timeout n = create_socket n and_then set_blocking os false and_then λ n'.
        connect_unix_within (timeout_msec timeout) (n.context.flags.block) path
          (record n' { connection_type = conn_unix; path = some path; timeout = timeout })
