-- ===== src/Net/Connect/Ends.antt =====
-- net.c: how redisContextConnectTcp, redisContextConnectBindTcp and redisContextConnectUnix end.
use multiplexing_hiredis.Common.{
  ℕ, ◌≡◌, refl, inl, inr, Bool, Bool-cases, true, false, not, ◌&&◌, Option, none, some, [], Bytes,
  codes, take,
}
use multiplexing_hiredis.Common.Decimal.{print_nat}
use multiplexing_hiredis.Common.Int.{ℤ}
use multiplexing_hiredis.Reader.State.{io, other}
use multiplexing_hiredis.Net.Timeout.{Timeval, timeout_msec}
use multiplexing_hiredis.Net.State.{
  held, Family, Resolved, unresolved, resolved, Os, Net, inet, connect_path, is_einprogress,
  conn_tcp, conn_unix,
}
use multiplexing_hiredis.Net.Calls.{perform, ask, set_error_from_errno}
use multiplexing_hiredis.Net.Connect.{
  mark_connected, or_ipv6, resolve, connect_found, connect_within, connect_tcp, take_socket,
  make_socket, unix_established, connect_local, create_socket, connect_unix_within, connect_unix,
  connect_retries,
}
use multiplexing_hiredis.Net.Connect.Held.{
  IsOpen, IsShut, Ends, went, failed, and_then-Ends, fail_with-Ends, perform-IsOpen,
  set_blocking-Ends, wait_ready-Ends,
}
use multiplexing_hiredis.Net.Connect.Attempts.{
  IsConnected, mark_connected-IsConnected, take_socket-IsOpen, take_socket-IsShut, block_again-Ends,
  try_addresses-Ends,
}

abbrev pub is_none {ℓ} : {A : Type ℓ} → Option A → Bool
is_none none = true
is_none (some a) = false

module _ {Obj Store Address : Type 0} (os : Os Address) where
  or_ipv6-IsShut :
      {fd : Option ℕ} (r : Resolved Address) (addr : Option Bytes) (service : Bytes)
      (n : Net Obj Store Address)
      → IsShut fd n
      → IsShut fd ((or_ipv6 os r addr service n).2)
  unfolding or_ipv6 held
  or_ipv6-IsShut (resolved found) addr service n h = h
  or_ipv6-IsShut (unresolved text) addr service n h = h

  connect_found-Ends :
      {fd : Option ℕ} {reuse : Bool} (blocking : Bool) (msec : ℤ) (family : Family)
      (found : Resolved Address) (n : Net Obj Store Address)
      → IsShut fd n
      → Ends fd reuse IsConnected (connect_found os blocking reuse msec (family, found, n))
  unfolding connect_found
  connect_found-Ends blocking msec family (unresolved text) n h =
      fail_with-Ends other text n refl (inr h)
  connect_found-Ends {reuse} blocking msec family (resolved found) n h =
      try_addresses-Ends os family blocking reuse msec found connect_retries n h

  connect_within-Ends :
      {fd : Option ℕ} (t : Option ℤ) (addr source_addr : Option Bytes) (n : Net Obj Store Address)
      → IsShut fd n
      → Ends fd n.reuseaddr IsConnected (connect_within os t addr source_addr n)
  unfolding connect_within resolve held
  connect_within-Ends none addr source_addr n h =
      fail_with-Ends io (codes "Invalid timeout specified") n refl (inr h)
  connect_within-Ends (some msec) addr source_addr n h =
      let service = take 5 (print_nat n.port) in
      let n' = ask n.errno (record n { source_addr = source_addr }) in
      let r = os.getaddrinfo n.log addr (some service) inet in
      let (family, found, n₂) = or_ipv6 os r addr service n' in
      connect_found-Ends n.context.flags.block msec family found n₂
        (or_ipv6-IsShut r addr service n' h)

  -- _redisContextConnectTcp, where no descriptor is open at the start. With REDIS_OK the context has
  -- the only open descriptor and REDIS_CONNECTED is set. With REDIS_ERR it has the only open one, or
  -- none is open and it has none or the number it had before; and it has an error, unless
  -- REDIS_REUSEADDR is set.
  pub connect_tcp-Ends :
      (addr : Option Bytes) (port : ℕ) (timeout : Option Timeval) (source_addr : Option Bytes)
      (n : Net Obj Store Address)
      → held n.log ≡ some []
      → Ends n.fd n.reuseaddr IsConnected (connect_tcp os addr port timeout source_addr n)
  unfolding connect_tcp
  connect_tcp-Ends addr port timeout source_addr n h =
      connect_within-Ends (timeout_msec timeout) addr source_addr
        (record n { connection_type = conn_tcp; port = port; host = addr; timeout = timeout })
        (h, inr refl)

  unix_established-Ends :
      {fd : Option ℕ} {silent : Bool} (blocking : Bool) (n : Net Obj Store Address)
      → IsOpen n
      → Ends fd silent IsConnected (unix_established os blocking n)
  unfolding unix_established
  unix_established-Ends blocking n o =
      and_then-Ends (block_again-Ends os blocking n o)
        λ n' o'. went (mark_connected n') (mark_connected-IsConnected n' o')

  connect_local-Ends :
      {fd : Option ℕ} {silent : Bool} (blocking : Bool) (msec : ℤ) (path : Bytes)
      (n : Net Obj Store Address)
      → IsOpen n
      → Ends fd silent IsConnected (connect_local os blocking msec path n)
  unfolding connect_local
  connect_local-Ends blocking msec path n o =
      let n' = (perform os (connect_path path) n).1 in
      let o' = perform-IsOpen os (connect_path path) n o in
      elim (Bool-cases ((perform os (connect_path path) n).0)) [
        | inr e ↦ rw (connect_local, e) (unix_established-Ends blocking n' o')
        | inl e ↦ elim (Bool-cases (is_einprogress n'.errno && not blocking)) [
          | inl e₁ ↦ rw (connect_local, e, e₁) (unix_established-Ends blocking n' o')
          | inr e₁ ↦
              rw (connect_local, e, e₁)
                (and_then-Ends (wait_ready-Ends os msec n' o') (unix_established-Ends blocking))
        ]
      ]

  create_socket-Ends :
      {fd : Option ℕ} {silent : Bool} (n : Net Obj Store Address)
      → IsShut fd n
      → Ends fd silent IsOpen (create_socket os n)
  unfolding create_socket make_socket set_error_from_errno
  create_socket-Ends n h =
      let r = os.socket n.log none in
      let n' = (take_socket r n).1 in
      elim (Bool-cases ((take_socket r n).0)) [
        | inl e ↦ rw (create_socket, make_socket, e) (went n' (take_socket-IsOpen r n h e))
        | inr e ↦
            rw (create_socket, make_socket, e)
              (fail_with-Ends io (os.strerror n'.errno) n' refl (inr (take_socket-IsShut r n h e)))
      ]

  connect_unix_within-Ends :
      {fd : Option ℕ} (t : Option ℤ) (blocking : Bool) (path : Bytes) (n : Net Obj Store Address)
      → IsOpen n
      → Ends fd (is_none t) IsConnected (connect_unix_within os t blocking path n)
  unfolding connect_unix_within
  connect_unix_within-Ends none blocking path n o = failed n (inl o) (inr refl)
  connect_unix_within-Ends (some msec) blocking path n o =
      connect_local-Ends blocking msec (take 107 path) n o

  -- redisContextConnectUnix, where no descriptor is open at the start. With REDIS_OK the context has
  -- the only open descriptor and REDIS_CONNECTED is set. With REDIS_ERR it has the only open one, or
  -- none is open and it has none or the number it had before; and it has an error, unless the
  -- timeout is not valid.
  pub connect_unix-Ends :
      (path : Bytes) (timeout : Option Timeval) (n : Net Obj Store Address)
      → held n.log ≡ some []
      → Ends n.fd (is_none (timeout_msec timeout)) IsConnected (connect_unix os path timeout n)
  unfolding connect_unix
  connect_unix-Ends path timeout n h =
      and_then-Ends
        (and_then-Ends (create_socket-Ends n (h, inr refl)) (set_blocking-Ends os false))
        λ n' o.
          connect_unix_within-Ends (timeout_msec timeout) n.context.flags.block path
            (record n' { connection_type = conn_unix; path = some path; timeout = timeout }) o
