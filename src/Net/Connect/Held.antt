-- ===== src/Net/Connect/Held.antt =====
-- net.c: which descriptors are open after each operation on a socket, and whether the context has an
-- error.
use multiplexing_hiredis.Common.{
  ℕ, ◌≡◌, refl, ◌⊎◌, inl, inr, Bool, Bool-cases, true, Option, none, some, [], ◌∷◌, ◌++◌, Bytes,
  codes, arith,
}
use multiplexing_hiredis.Common.Int.{ℤ}
use multiplexing_hiredis.Reader.State.{ErrorCode, is_error, io, Status, redis_ok, redis_err}
use multiplexing_hiredis.Context.{set_error}
use multiplexing_hiredis.Net.State.{
  without, held, Call, fcntl_getfl, fcntl_setfl, setsockopt, tcp_nodelay, PollResult, PendingResult,
  etimedout, poll_failed, timed_out, ready, getsockopt_failed, pending, Os, Net, is_einprogress,
}
use multiplexing_hiredis.Net.Calls.{
  ◌and_then◌, close_fd, fail_with, set_error_from_errno, io_close, perform, call_or_close, ask,
  set_blocking, set_tcp_no_delay, settle_pending, check_socket_error, settle_poll, wait_ready,
}

module _ {Obj Store Address : Type 0} where
  -- The context's descriptor is the only one that is open.
  abbrev pub IsOpen : Net Obj Store Address → Type 0
  IsOpen n = (s : ℕ) × (n.fd ≡ some s) × (held n.log ≡ some (s ∷ []))

  -- None is open: the context has none, or still the number `fd`.
  abbrev pub IsShut : Option ℕ → Net Obj Store Address → Type 0
  IsShut fd n = (held n.log ≡ some []) × ((n.fd ≡ none) ⊎ (n.fd ≡ fd))

  -- The ways a step ends: it gives REDIS_OK and `Q` holds, or REDIS_ERR, and then the context has an
  -- error or `silent` is set.
  pub data Ends (fd : Option ℕ) (silent : Bool) (Q : Net Obj Store Address → Type 0)
      : Status × Net Obj Store Address → Type 0 where
    went : (n : Net Obj Store Address) → Q n → Ends fd silent Q (redis_ok, n)
    failed :
        (n : Net Obj Store Address)
        → IsOpen n ⊎ IsShut fd n
        → (is_error n.context.err ≡ true) ⊎ (silent ≡ true)
        → Ends fd silent Q (redis_err, n)

  pub and_then-Ends :
      {fd : Option ℕ} {silent : Bool} {P Q : Net Obj Store Address → Type 0}
      {r : Status × Net Obj Store Address}
      {f : Net Obj Store Address → Status × Net Obj Store Address}
      → Ends fd silent P r
      → ((n : Net Obj Store Address) → P n → Ends fd silent Q (f n))
      → Ends fd silent Q (r and_then f)
  unfolding ◌and_then◌
  and_then-Ends (went n p) q = q n p
  and_then-Ends (failed n h e) q = failed n h e

  -- close of the context's descriptor
  pub close_fd-IsShut :
      {fd : Option ℕ} (n : Net Obj Store Address) → IsOpen n → IsShut fd (close_fd n)
  unfolding close_fd held without
  close_fd-IsShut n (s, f, h) = ground arith

  close_fd-context : (n : Net Obj Store Address) → (close_fd n).context ≡ n.context
  unfolding close_fd
  close_fd-context n = ground arith

  fail_with-is_error :
      (type : ErrorCode) (str : Bytes) (n : Net Obj Store Address)
      → is_error ((fail_with type str n).context.err) ≡ is_error type
  unfolding fail_with set_error
  fail_with-is_error type str n = refl

  -- The error is set, and the socket left as it is.
  pub fail_with-Ends :
      {fd : Option ℕ} {silent : Bool} {Q : Net Obj Store Address → Type 0} (type : ErrorCode)
      (str : Bytes) (n : Net Obj Store Address)
      → is_error type ≡ true
      → IsOpen n ⊎ IsShut fd n
      → Ends fd silent Q (redis_err, fail_with type str n)
  unfolding fail_with set_error
  fail_with-Ends type str n e o = failed _ o (inl e)

  module _ (os : Os Address) where
    pub perform-IsOpen :
        (k : Call Address) (n : Net Obj Store Address) → IsOpen n → IsOpen ((perform os k n).1)
    unfolding perform held
    perform-IsOpen k n o = ground arith

    module _ {fd : Option ℕ} {silent : Bool} where
      pub io_close-Ends :
          {Q : Net Obj Store Address → Type 0} (prefix : Bytes) (n : Net Obj Store Address)
          → IsOpen n
          → Ends fd silent Q (io_close os prefix n)
      unfolding io_close set_error_from_errno fail_with set_error
      io_close-Ends prefix n o =
          let n' = set_error_from_errno os io prefix n in
          failed (close_fd n') (inr (close_fd-IsShut n' o)) (inl (rw (close_fd-context n') refl))

      pub call_or_close-Ends :
          (prefix : Bytes) (k : Call Address) (n : Net Obj Store Address)
          → IsOpen n
          → Ends fd silent IsOpen (call_or_close os prefix k n)
      unfolding call_or_close
      call_or_close-Ends prefix k n o =
          let n' = (perform os k n).1 in
          elim (Bool-cases ((perform os k n).0)) [
            | inl e ↦ rw (call_or_close, e) (io_close-Ends prefix n' (perform-IsOpen k n o))
            | inr e ↦ rw (call_or_close, e) (went n' (perform-IsOpen k n o))
          ]

      pub set_blocking-Ends :
          (blocking : Bool) (n : Net Obj Store Address)
          → IsOpen n
          → Ends fd silent IsOpen (set_blocking os blocking n)
      unfolding set_blocking
      set_blocking-Ends blocking n o =
          and_then-Ends (call_or_close-Ends (codes "fcntl(F_GETFL): ") fcntl_getfl n o)
            (call_or_close-Ends (codes "fcntl(F_SETFL): ") (fcntl_setfl blocking))

      pub set_tcp_no_delay-Ends :
          (n : Net Obj Store Address) → IsOpen n → Ends fd silent IsOpen (set_tcp_no_delay os n)
      unfolding set_tcp_no_delay
      set_tcp_no_delay-Ends =
          call_or_close-Ends (codes "setsockopt(TCP_NODELAY): ") (setsockopt tcp_nodelay)

      set_error_from_errno-Ends :
          {Q : Net Obj Store Address → Type 0} (prefix : Bytes) (n : Net Obj Store Address)
          → IsOpen n
          → Ends fd silent Q (redis_err, set_error_from_errno os io prefix n)
      unfolding set_error_from_errno
      set_error_from_errno-Ends prefix n o =
          fail_with-Ends io (prefix ++ os.strerror n.errno) n refl (inl o)

      settle_pending-Ends :
          (r : PendingResult) (n : Net Obj Store Address)
          → IsOpen n
          → Ends fd silent IsOpen (settle_pending os r n)
      unfolding settle_pending held
      settle_pending-Ends (getsockopt_failed e) n o =
          set_error_from_errno-Ends (codes "getsockopt(SO_ERROR): ") (ask e n) o
      settle_pending-Ends (pending (some e)) n o = set_error_from_errno-Ends [] (ask e n) o
      settle_pending-Ends (pending none) n o = went (ask n.errno n) o

      pub check_socket_error-Ends :
          (n : Net Obj Store Address) → IsOpen n → Ends fd silent IsOpen (check_socket_error os n)
      unfolding check_socket_error
      check_socket_error-Ends n o = settle_pending-Ends (os.so_error n.log n.fd) n o

      settle_poll-Ends :
          (r : PollResult) (n : Net Obj Store Address)
          → IsOpen n
          → Ends fd silent IsOpen (settle_poll os r n)
      unfolding settle_poll held
      settle_poll-Ends (poll_failed e) n o = io_close-Ends (codes "poll(2): ") (ask e n) o
      settle_poll-Ends timed_out n o = io_close-Ends [] (ask etimedout n) o
      settle_poll-Ends ready n o = check_socket_error-Ends (ask n.errno n) o

      pub wait_ready-Ends :
          (msec : ℤ) (n : Net Obj Store Address)
          → IsOpen n
          → Ends fd silent IsOpen (wait_ready os msec n)
      unfolding wait_ready
      wait_ready-Ends msec n o = elim (Bool-cases (is_einprogress n.errno)) [
        | inl e ↦ rw (wait_ready, e) (settle_poll-Ends (os.poll n.log n.fd msec) n o)
        | inr e ↦ rw (wait_ready, e) (io_close-Ends [] n o)
      ]
