-- ===== src/Net/Contexts/Closes.antt =====
-- hiredis.c and net.c: what redisFree leaves open, after a connection and after redisReconnect.
use multiplexing_hiredis.Common.{
  ℕ, ◌<◌, ◌≡◌, refl, ◌∙◌, ◌||◌, ◌⊎◌, inl, inr, Bool, Option, none, some, List, [], ◌∷◌, Bytes, take,
  ◌≢◌, arith, true, false,
}
use multiplexing_hiredis.Common.Decimal.{print_nat}
use multiplexing_hiredis.Common.Int.{ℤ}
use multiplexing_hiredis.Net.Calls.{fail_with}
use multiplexing_hiredis.Reader.State.{Status, redis_err, is_error}
use multiplexing_hiredis.Net.Timeout.{Timeval, timeout_msec}
use multiplexing_hiredis.Net.State.{
  without, held, Family, inet, inet6, asked, unresolved, Os, ConnectionType, conn_tcp, conn_unix,
  Net, Logged,
}
use multiplexing_hiredis.Net.Connect.{connect_within, resolve, or_ipv6, connect_found, connect_tcp}
use multiplexing_hiredis.Net.Connect.Held.{IsOpen, IsShut, Ends, went, failed}
use multiplexing_hiredis.Net.Connect.Attempts.{IsConnected}
use multiplexing_hiredis.Net.Connect.Ends.{is_none, connect_tcp-Ends, connect_unix-Ends}
use multiplexing_hiredis.Net.Contexts.{
  Dial, dial_tcp, dial_unix, dialled, with_block, free, drop_connection, reconnect_unix,
  reconnect_by, reconnect,
}

-- No descriptor is open, but perhaps the descriptor 0.
abbrev pub IsReleased : {Address : Type 0} → List (Logged Address) → Type 0
IsReleased log = (held log ≡ some []) ⊎ (held log ≡ some (0 ∷ []))

-- The calls of redisContextConnectTcp and redisContextConnectUnix that redisReconnect makes may fail
-- and set no error.
abbrev pub may_be_silent : ConnectionType → Bool → Option Bytes → Option Timeval → Bool
may_be_silent conn_tcp reuse path timeout = reuse
may_be_silent conn_unix reuse path timeout = is_none path || is_none (timeout_msec timeout)

-- The variants of redisConnect that may fail and set no error.
abbrev pub may_fail_silently : Dial → Bool
may_fail_silently (dial_tcp ip port timeout source_addr block reuse) = reuse
may_fail_silently (dial_unix path timeout block) = is_none (timeout_msec timeout)

module _ {Obj Store Address : Type 0} where
  free-IsReleased : (n : Net Obj Store Address) → IsOpen n ⊎ IsShut (some 0) n → IsReleased (free n)
  unfolding free held without
  free-IsReleased n h = ground arith

  -- A number that is not that of an open descriptor is closed.
  free_twice :
      (n : Net Obj Store Address) (s : ℕ)
      → n.fd ≡ some s
      → 0 < s
      → held n.log ≡ some []
      → held (free n) ≡ none
  unfolding free held without
  free_twice n s f p h = ground arith

  -- Either way a call of net.c has ended, the context can be freed.
  Ends-IsReleased :
      {fd : Option ℕ} {silent : Bool} {r : Status × Net Obj Store Address}
      → fd ≡ some 0
      → Ends fd silent IsConnected r
      → IsReleased (free (r.1))
  Ends-IsReleased f (went n q) = free-IsReleased n (inl (q.0))
  Ends-IsReleased f (failed n (inl o) e) = free-IsReleased n (inl o)
  Ends-IsReleased f (failed n (inr (h, inl g)) e) = free-IsReleased n (inr (h, inl g))
  Ends-IsReleased f (failed n (inr (h, inr g)) e) = free-IsReleased n (inr (h, inr (g ∙ f)))

  -- A call that may not fail in silence has set an error, or the context is connected.
  Ends-IsConnected :
      {fd : Option ℕ} {silent : Bool} {r : Status × Net Obj Store Address}
      → silent ≡ false
      → Ends fd silent IsConnected r
      → (is_error r.1.context.err ≡ true) ⊎ IsConnected (r.1)
  Ends-IsConnected f (went n q) = inr q
  Ends-IsConnected f (failed n h (inl e)) = inl e
  Ends-IsConnected f (failed n h (inr e)) = absurd (ground arith)

  module _ (os : Os Address) where
    -- Without an error, a context that was connected has the only open descriptor.
    pub dialled-IsConnected :
        (d : Dial) (n : Net Obj Store Address)
        → held n.log ≡ some []
        → may_fail_silently d ≡ false
        → (is_error (dialled os d n).context.err ≡ true) ⊎ IsConnected (dialled os d n)
    unfolding dialled with_block
    dialled-IsConnected (dial_tcp ip port timeout source_addr block reuse) n h f =
        Ends-IsConnected f (
          connect_tcp-Ends os (some ip) port timeout source_addr
            (with_block block (record n { reuseaddr = reuse })) h)
    dialled-IsConnected (dial_unix path timeout block) n h f =
        Ends-IsConnected f (connect_unix-Ends os path timeout (with_block block n) h)

    -- A context without a descriptor, whose `fd` is the 0 of calloc, is connected in any way, with
    -- success or not, and freed: what was opened is closed, and closed once, but a descriptor 0 may
    -- stay open.
    pub dialled-IsReleased :
        (d : Dial) (n : Net Obj Store Address)
        → held n.log ≡ some []
        → n.fd ≡ some 0
        → IsReleased (free (dialled os d n))
    unfolding dialled with_block
    dialled-IsReleased (dial_tcp ip port timeout source_addr block reuse) n h f =
        Ends-IsReleased f (
          connect_tcp-Ends os (some ip) port timeout source_addr
            (with_block block (record n { reuseaddr = reuse })) h)
    dialled-IsReleased (dial_unix path timeout block) n h f =
        Ends-IsReleased f (connect_unix-Ends os path timeout (with_block block n) h)

    drop_connection-held :
        (store : Store) (n : Net Obj Store Address) (s : ℕ)
        → n.fd ≡ some s
        → 0 < s
        → held n.log ≡ some (s ∷ [])
        → held ((drop_connection os store n).log) ≡ some []
    unfolding drop_connection free held without
    drop_connection-held store n s f p h = ground arith

    reconnect_unix-Ends :
        (path : Option Bytes) (n : Net Obj Store Address)
        → held n.log ≡ some []
        → Ends n.fd
            (is_none path || is_none (timeout_msec n.timeout))
            IsConnected
            (reconnect_unix os path n)
    unfolding reconnect_unix
    reconnect_unix-Ends none n h = failed n (inr (h, inr refl)) (inr refl)
    reconnect_unix-Ends (some path) n h = connect_unix-Ends os path n.timeout n h

    reconnect_by-Ends :
        (type : ConnectionType) (n : Net Obj Store Address)
        → held n.log ≡ some []
        → Ends n.fd
            (may_be_silent type n.reuseaddr n.path n.timeout)
            IsConnected
            (reconnect_by os type n)
    unfolding reconnect_by
    reconnect_by-Ends conn_tcp n h = connect_tcp-Ends os n.host n.port n.timeout n.source_addr n h
    reconnect_by-Ends conn_unix n h = reconnect_unix-Ends n.path n h

    -- A context whose descriptor is the only open one is reconnected. With REDIS_OK the context has
    -- one again, the only open one, and is connected. With REDIS_ERR it has the only open one, or
    -- none is open and it has none or still the number that was closed; it has an error, unless
    -- REDIS_REUSEADDR is set or, for a local socket, there is no path or the timeout is not valid.
    pub reconnect-Ends :
        (store : Store) (n : Net Obj Store Address) (s : ℕ)
        → n.fd ≡ some s
        → 0 < s
        → held n.log ≡ some (s ∷ [])
        → Ends n.fd
            (may_be_silent n.connection_type n.reuseaddr n.path n.timeout)
            IsConnected
            (reconnect os store n)
    unfolding reconnect
    reconnect-Ends store n s f p h =
        reconnect_by-Ends n.connection_type (drop_connection os store n)
          (drop_connection-held store n s f p h)

    -- The address is not found: the descriptor is what it was.
    connect_within-unresolved :
        (t : Option ℤ) (addr source_addr : Option Bytes) (n : Net Obj Store Address) (text : Bytes)
        → t ≢ none
        → ((log : List (Logged Address)) (node service : Option Bytes) (family : Family)
            → os.getaddrinfo log node service family ≡ unresolved text)
        → ((connect_within os t addr source_addr n).0 ≡ redis_err)
          × ((connect_within os t addr source_addr n).1.fd ≡ n.fd)
          × (held ((connect_within os t addr source_addr n).1.log) ≡ held n.log)
    unfolding connect_within resolve or_ipv6 connect_found fail_with held
    connect_within-unresolved none addr source_addr n text t r = absurd (t refl)
    connect_within-unresolved (some msec) addr source_addr n text t r =
        let service = some (take 5 (print_nat n.port)) in
        let log' = asked ∷ n.log in
        rw
          (
            connect_within,
            resolve,
            r n.log addr service inet,
            or_ipv6,
            r log' addr service inet6,
            connect_found,
          )
          (refl, refl, refl)

    -- Where the address of the host is not found, a context whose descriptor is the only open one is
    -- reconnected and freed: redisReconnect gives REDIS_ERR, and redisFree closes a descriptor that
    -- is not open.
    pub free-reconnect_twice :
        (store : Store) (n : Net Obj Store Address) (s : ℕ) (text : Bytes)
        → n.fd ≡ some s
        → 0 < s
        → held n.log ≡ some (s ∷ [])
        → n.connection_type ≡ conn_tcp
        → timeout_msec n.timeout ≢ none
        → ((log : List (Logged Address)) (node service : Option Bytes) (family : Family)
            → os.getaddrinfo log node service family ≡ unresolved text)
        → ((reconnect os store n).0 ≡ redis_err) × (held (free ((reconnect os store n).1)) ≡ none)
    unfolding reconnect reconnect_by connect_tcp drop_connection held
    free-reconnect_twice store n s text f p h t v r =
        let m = drop_connection os store n in
        let m' = record m {
          connection_type = conn_tcp;
          port = n.port;
          host = n.host;
          timeout = n.timeout;
        } in
        let w =
          connect_within-unresolved (timeout_msec n.timeout) n.host n.source_addr m' text v r in
        let n' = (connect_within os (timeout_msec n.timeout) n.host n.source_addr m').1 in
        (
          rw (reconnect, t) (w.0),
          rw (reconnect, t)
              (free_twice n' s (w.1 ∙ f) p (w.2 ∙ drop_connection-held store n s f p h)),
        )
