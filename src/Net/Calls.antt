-- ===== src/Net/Calls.antt =====
-- net.c: the operations on one socket.
use multiplexing_hiredis.Common.{
  ℕ, ◌/◌, ◌==◌, ◌++◌, Bool, true, false, none, some, [], ◌∷◌, if◌then◌else◌, Bytes, codes,
}
use multiplexing_hiredis.Common.Int.{ℤ}
use multiplexing_hiredis.Reader.State.{ErrorCode, io, other, Status, redis_ok, redis_err}
use multiplexing_hiredis.Context.{set_error}
use multiplexing_hiredis.Net.Timeout.{Timeval}
use multiplexing_hiredis.Net.State.{
  ErrorNumber, etimedout, is_einprogress, so_reuseaddr, so_rcvtimeo, so_sndtimeo, tcp_nodelay,
  so_keepalive, tcp_keepidle, tcp_keepintvl, tcp_keepcnt, Call, fcntl_getfl, fcntl_setfl,
  setsockopt, closed, called, asked, PollResult, poll_failed, timed_out, ready, PendingResult,
  getsockopt_failed, pending, Os, Net,
}

module _ {Obj Store Address : Type 0} where
  -- The statements of a function after a step that must not have failed.
  infixl 5 ◌and_then◌
  unfoldable pub ◌and_then◌ :
      Status × Net Obj Store Address
      → (Net Obj Store Address → Status × Net Obj Store Address)
      → Status × Net Obj Store Address
  (redis_ok, n) and_then f = f n
  (redis_err, n) and_then f = (redis_err, n)

  -- redisContextCloseFd
  unfoldable pub close_fd : Net Obj Store Address → Net Obj Store Address
  close_fd n = elim (n.fd) [ none ↦ n | some s ↦ record n { fd = none; log = closed s ∷ n.log } ]

  -- __redisSetError on the context
  unfoldable pub fail_with : ErrorCode → Bytes → Net Obj Store Address → Net Obj Store Address
  unfolding set_error
  fail_with type str n = record n { context = set_error type str n.context }

  -- A call that is noted in the log, and perhaps has set errno.
  abbrev pub ask : ErrorNumber → Net Obj Store Address → Net Obj Store Address
  ask e n = record n { errno = e; log = asked ∷ n.log }

  module _ (os : Os Address) where
    -- __redisSetErrorFromErrno; the prefix is empty where it is NULL, and else ends in ": ".
    unfoldable pub set_error_from_errno :
        ErrorCode → Bytes → Net Obj Store Address → Net Obj Store Address
    unfolding fail_with
    set_error_from_errno type prefix n = fail_with type (prefix ++ os.strerror n.errno) n

    -- The error is set, the socket closed and REDIS_ERR returned.
    unfoldable pub io_close : Bytes → Net Obj Store Address → Status × Net Obj Store Address
    unfolding set_error_from_errno close_fd
    io_close prefix n = (redis_err, close_fd (set_error_from_errno io prefix n))

    -- A call on the socket: whether it gave -1, and then errno is set.
    unfoldable pub perform : Call Address → Net Obj Store Address → Bool × Net Obj Store Address
    perform k n = elim (os.call n.log n.fd k) [
      | none ↦ (false, record n { log = called k ∷ n.log })
      | some e ↦ (true, record n { errno = e; log = called k ∷ n.log })
    ]

    -- A call after which a failure closes the socket.
    unfoldable pub call_or_close :
        Bytes → Call Address → Net Obj Store Address → Status × Net Obj Store Address
    unfolding perform io_close
    call_or_close prefix k n =
        let (failed, n') = perform k n in if failed then io_close prefix n' else (redis_ok, n')

    -- A call after which a failure leaves the socket as it is.
    unfoldable pub call_or_fail :
        ErrorCode → Bytes → Call Address → Net Obj Store Address → Status × Net Obj Store Address
    unfolding perform set_error_from_errno
    call_or_fail type prefix k n =
        let (failed, n') = perform k n in
        if failed then (redis_err, set_error_from_errno type prefix n') else (redis_ok, n')

    -- redisSetReuseAddr
    unfoldable pub set_reuse_addr : Net Obj Store Address → Status × Net Obj Store Address
    unfolding call_or_close
    set_reuse_addr = call_or_close [] (setsockopt so_reuseaddr)

    -- redisSetBlocking
    unfoldable pub set_blocking : Bool → Net Obj Store Address → Status × Net Obj Store Address
    unfolding ◌and_then◌ call_or_close
    set_blocking blocking n =
        call_or_close (codes "fcntl(F_GETFL): ") fcntl_getfl n
        and_then call_or_close (codes "fcntl(F_SETFL): ") (fcntl_setfl blocking)

    -- redisKeepAlive, with glibc
    unfoldable pub keep_alive : ℕ → Net Obj Store Address → Status × Net Obj Store Address
    unfolding ◌and_then◌ call_or_fail
    keep_alive interval n =
        call_or_fail other [] (setsockopt so_keepalive) n
        and_then call_or_fail other [] (setsockopt (tcp_keepidle interval))
        and_then call_or_fail other []
            (setsockopt (tcp_keepintvl (if interval / 3 == 0 then 1 else interval / 3)))
        and_then call_or_fail other [] (setsockopt (tcp_keepcnt 3))

    -- redisSetTcpNoDelay
    unfoldable pub set_tcp_no_delay : Net Obj Store Address → Status × Net Obj Store Address
    unfolding call_or_close
    set_tcp_no_delay = call_or_close (codes "setsockopt(TCP_NODELAY): ") (setsockopt tcp_nodelay)

    -- What getsockopt gave.
    unfoldable pub settle_pending :
        PendingResult → Net Obj Store Address → Status × Net Obj Store Address
    unfolding set_error_from_errno
    settle_pending (getsockopt_failed e) n =
        (redis_err, set_error_from_errno io (codes "getsockopt(SO_ERROR): ") (ask e n))
    settle_pending (pending (some e)) n = (redis_err, set_error_from_errno io [] (ask e n))
    settle_pending (pending none) n = (redis_ok, ask n.errno n)

    -- redisCheckSocketError
    unfoldable pub check_socket_error : Net Obj Store Address → Status × Net Obj Store Address
    unfolding settle_pending
    check_socket_error n = settle_pending (os.so_error n.log n.fd) n

    -- What poll(2) gave.
    unfoldable pub settle_poll : PollResult → Net Obj Store Address → Status × Net Obj Store Address
    unfolding io_close check_socket_error
    settle_poll (poll_failed e) n = io_close (codes "poll(2): ") (ask e n)
    settle_poll timed_out n = io_close [] (ask etimedout n)
    settle_poll ready n = check_socket_error (ask n.errno n)

    -- redisContextWaitReady
    unfoldable pub wait_ready : ℤ → Net Obj Store Address → Status × Net Obj Store Address
    unfolding io_close settle_poll
    wait_ready msec n =
        if is_einprogress n.errno then settle_poll (os.poll n.log n.fd msec) n else io_close [] n

    -- redisContextSetTimeout
    unfoldable pub context_set_timeout :
        Timeval → Net Obj Store Address → Status × Net Obj Store Address
    unfolding ◌and_then◌ call_or_fail
    context_set_timeout tv n =
        call_or_fail io (codes "setsockopt(SO_RCVTIMEO): ") (setsockopt (so_rcvtimeo tv)) n
        and_then call_or_fail io (codes "setsockopt(SO_SNDTIMEO): ") (setsockopt (so_sndtimeo tv))
