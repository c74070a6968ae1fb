-- ===== src/Net/Connect/Attempts.antt =====
-- net.c: _redisContextConnectTcp: which descriptors are open after each attempt to connect.
use multiplexing_hiredis.Common.{
  ℕ, zero, suc, ◌≡◌, refl, inl, inr, ◌++◌, Bool, Bool-cases, true, false, not, ◌&&◌, Option, none,
  some, List, [], ◌∷◌, Option-cases, codes, arith,
}
use multiplexing_hiredis.Common.Int.{ℤ}
use multiplexing_hiredis.Reader.State.{other, Status, redis_ok, redis_err}
use multiplexing_hiredis.Net.State.{
  held, Family, SocketResult, no_socket, socket_made, Resolved, unresolved, resolved, Os, Net,
  so_reuseaddr, setsockopt, bind, connect, is_ehostunreach, is_einprogress, is_eaddrnotavail,
}
use multiplexing_hiredis.Net.Calls.{close_fd, perform, ask}
use multiplexing_hiredis.Net.Connect.{
  Ending, next, retry, done, mark_connected, make_socket, bind_any, bind_to, bind_found,
  reuse_for_bind, bind_source, block_again, established, ended, connect_to, connect_failed, prepare,
  unless_failed, take_socket, attempt, again, onward, try_address, try_addresses,
}
use multiplexing_hiredis.Net.Connect.Held.{
  IsOpen, IsShut, Ends, went, failed, and_then-Ends, close_fd-IsShut, fail_with-Ends,
  perform-IsOpen, set_blocking-Ends, set_tcp_no_delay-Ends, wait_ready-Ends,
}

and_right : (a b : Bool) → (a && b) ≡ true → b ≡ true
and_right a b e = ground arith

module _ {Obj Store Address : Type 0} where
  -- The context's descriptor is the only one that is open, and REDIS_CONNECTED is set.
  abbrev pub IsConnected : Net Obj Store Address → Type 0
  IsConnected n = IsOpen n × (n.context.flags.connected ≡ true)

  pub mark_connected-IsConnected :
      (n : Net Obj Store Address) → IsOpen n → IsConnected (mark_connected n)
  unfolding mark_connected
  mark_connected-IsConnected n o = (o, refl)

  -- How the body of the loop may end.
  pub data Attempted (fd : Option ℕ) (reuse : Bool) : Ending (Net Obj Store Address) → Type 0 where
    to_next : (n : Net Obj Store Address) → IsShut fd n → Attempted fd reuse (next n)
    to_retry : (n : Net Obj Store Address) → IsOpen n → reuse ≡ true → Attempted fd reuse (retry n)
    to_end :
        (st : Status) (n : Net Obj Store Address)
        → Ends fd reuse IsConnected (st, n)
        → Attempted fd reuse (done st n)

  -- How the attempts at one address may end.
  pub data Tried (fd : Option ℕ) (reuse : Bool) : ℕ × Ending (Net Obj Store Address) → Type 0 where
    left_out : (left : ℕ) (n : Net Obj Store Address) → IsShut fd n → Tried fd reuse (left, next n)
    ended_with :
        (left : ℕ) (st : Status) (n : Net Obj Store Address)
        → Ends fd reuse IsConnected (st, n)
        → Tried fd reuse (left, done st n)

  again-Tried :
      {fd : Option ℕ} {reuse : Bool} (left : ℕ)
      (repeat : Net Obj Store Address → ℕ × Ending (Net Obj Store Address))
      {at : Ending (Net Obj Store Address)}
      → Attempted fd reuse at
      → ((n : Net Obj Store Address) → IsOpen n → reuse ≡ true → Tried fd reuse (repeat n))
      → Tried fd reuse (again left repeat at)
  unfolding again
  again-Tried left repeat (to_next n s) f = left_out left n s
  again-Tried left repeat (to_retry n o r) f = f n o r
  again-Tried left repeat (to_end st n e) f = ended_with left st n e

  onward-Ends :
      {fd : Option ℕ} {reuse : Bool}
      (continue : ℕ → Net Obj Store Address → Status × Net Obj Store Address)
      {at : ℕ × Ending (Net Obj Store Address)}
      → Tried fd reuse at
      → ((left : ℕ) (n : Net Obj Store Address)
          → IsShut fd n
          → Ends fd reuse IsConnected (continue left n))
      → Ends fd reuse IsConnected (onward continue at)
  unfolding onward
  onward-Ends continue (left_out left n s) f = f left n s
  onward-Ends continue (ended_with left st n e) f = e

  pub take_socket-IsOpen :
      {fd : Option ℕ} (r : SocketResult) (n : Net Obj Store Address)
      → IsShut fd n
      → (take_socket r n).0 ≡ true
      → IsOpen ((take_socket r n).1)
  unfolding take_socket held
  take_socket-IsOpen (no_socket x) n h e = ground arith
  take_socket-IsOpen (socket_made s) n h e = (s, refl, rw (h.0) refl)

  pub take_socket-IsShut :
      {fd : Option ℕ} (r : SocketResult) (n : Net Obj Store Address)
      → IsShut fd n
      → (take_socket r n).0 ≡ false
      → IsShut fd ((take_socket r n).1)
  unfolding take_socket held
  take_socket-IsShut (no_socket x) n h e = h
  take_socket-IsShut (socket_made s) n h e = ground arith

  module _ (os : Os Address) where
    bind_any-IsOpen :
        (bs : List Address) (n : Net Obj Store Address) → IsOpen n → IsOpen ((bind_any os bs n).1)
    unfolding bind_any
    bind_any-IsOpen [] n o = o
    bind_any-IsOpen (b ∷ bs) n o =
        let n' = (perform os (bind b) n).1 in
        elim (Bool-cases ((perform os (bind b) n).0)) [
          | inl e ↦ rw (bind_any, e) (bind_any-IsOpen bs n' (perform-IsOpen os (bind b) n o))
          | inr e ↦ rw (bind_any, e) (perform-IsOpen os (bind b) n o)
        ]

    module _ {fd : Option ℕ} where
      bind_to-Ends :
          {reuse : Bool} (bs : List Address) (n : Net Obj Store Address)
          → IsOpen n
          → Ends fd reuse IsOpen (bind_to os bs n)
      unfolding bind_to
      bind_to-Ends bs n o =
          let n' = (bind_any os bs n).1 in
          let o' = bind_any-IsOpen bs n o in
          elim (Bool-cases ((bind_any os bs n).0)) [
            | inl e ↦ rw (bind_to, e) (went n' o')
            | inr e ↦
                rw (bind_to, e)
                  (fail_with-Ends other (codes "Can't bind socket: " ++ os.strerror n'.errno) n'
                    refl (inl o'))
          ]

      reuse_for_bind-Ends :
          (reuse : Bool) (n : Net Obj Store Address)
          → IsOpen n
          → Ends fd reuse IsOpen (reuse_for_bind os reuse n)
      unfolding reuse_for_bind
      reuse_for_bind-Ends false n o = went n o
      reuse_for_bind-Ends true n o =
          let n' = (perform os (setsockopt so_reuseaddr) n).1 in
          let o' = perform-IsOpen os (setsockopt so_reuseaddr) n o in
          elim (Bool-cases ((perform os (setsockopt so_reuseaddr) n).0)) [
            | inl e ↦ rw (reuse_for_bind, e) (failed n' (inl o') (inr refl))
            | inr e ↦ rw (reuse_for_bind, e) (went n' o')
          ]

      bind_found-Ends :
          (reuse : Bool) (r : Resolved Address) (n : Net Obj Store Address)
          → IsOpen n
          → Ends fd reuse IsOpen (bind_found os reuse r n)
      unfolding bind_found
      bind_found-Ends reuse (unresolved text) n o =
          fail_with-Ends other (codes "Can't get addr: " ++ text) n refl (inl o)
      bind_found-Ends reuse (resolved bs) n o =
          and_then-Ends (reuse_for_bind-Ends reuse n o) (bind_to-Ends bs)

      bind_source-Ends :
          (family : Family) (reuse : Bool) (n : Net Obj Store Address)
          → IsOpen n
          → Ends fd reuse IsOpen (bind_source os family reuse n)
      unfolding bind_source held
      bind_source-Ends family reuse n o = elim (Option-cases n.source_addr) [
        | inl e ↦ rw (bind_source, e) (went n o)
        | inr (source, e) ↦
            let found = os.getaddrinfo n.log (some source) none family in
            rw (bind_source, e) (bind_found-Ends reuse found (ask n.errno n) o)
      ]

      pub block_again-Ends :
          {reuse : Bool} (blocking : Bool) (n : Net Obj Store Address)
          → IsOpen n
          → Ends fd reuse IsOpen (block_again os blocking n)
      unfolding block_again
      block_again-Ends true n o = set_blocking-Ends os true n o
      block_again-Ends false n o = went n o

      established-Ends :
          {reuse : Bool} (blocking : Bool) (n : Net Obj Store Address)
          → IsOpen n
          → Ends fd reuse IsConnected (established os blocking n)
      unfolding established
      established-Ends blocking n o =
          and_then-Ends (and_then-Ends (block_again-Ends blocking n o) (set_tcp_no_delay-Ends os))
            λ n' o'. went (mark_connected n') (mark_connected-IsConnected n' o')

      to_end-ended :
          {reuse : Bool} {r : Status × Net Obj Store Address}
          → Ends fd reuse IsConnected r
          → Attempted fd reuse (ended r)
      to_end-ended (went n q) = to_end redis_ok n (went n q)
      to_end-ended (failed n h e) = to_end redis_err n (failed n h e)

      connect_failed-Attempted :
          (blocking reuse : Bool) (msec : ℤ) (n : Net Obj Store Address)
          → IsOpen n
          → Attempted fd reuse (connect_failed os blocking reuse msec n)
      unfolding connect_failed
      connect_failed-Attempted blocking reuse msec n o =
          elim (Bool-cases (is_ehostunreach n.errno)) [
            | inl e ↦ rw (connect_failed, e) (to_next (close_fd n) (close_fd-IsShut n o))
            | inr e ↦ elim (Bool-cases (is_einprogress n.errno && not blocking)) [
              | inl e₁ ↦ rw (connect_failed, e, e₁) (to_end-ended (established-Ends blocking n o))
              | inr e₁ ↦ elim (Bool-cases (is_eaddrnotavail n.errno && reuse)) [
                | inl e₂ ↦ rw (connect_failed, e, e₁, e₂) (to_retry n o (and_right _ reuse e₂))
                | inr e₂ ↦
                    rw (connect_failed, e, e₁, e₂)
                      (to_end-ended
                        (and_then-Ends (wait_ready-Ends os msec n o) (established-Ends blocking)))
              ]
            ]
          ]

      connect_to-Attempted :
          (blocking reuse : Bool) (msec : ℤ) (a : Address) (n : Net Obj Store Address)
          → IsOpen n
          → Attempted fd reuse (connect_to os blocking reuse msec a n)
      unfolding connect_to
      connect_to-Attempted blocking reuse msec a n o =
          let n' = (perform os (connect a) n).1 in
          let o' = perform-IsOpen os (connect a) n o in
          elim (Bool-cases ((perform os (connect a) n).0)) [
            | inl e ↦ rw (connect_to, e) (connect_failed-Attempted blocking reuse msec n' o')
            | inr e ↦ rw (connect_to, e) (to_end-ended (established-Ends blocking n' o'))
          ]

      unless_failed-Attempted :
          {reuse : Bool} {go : Net Obj Store Address → Ending (Net Obj Store Address)}
          {r : Status × Net Obj Store Address}
          → Ends fd reuse IsOpen r
          → ((n : Net Obj Store Address) → IsOpen n → Attempted fd reuse (go n))
          → Attempted fd reuse (unless_failed go r)
      unless_failed-Attempted (went n o) f = f n o
      unless_failed-Attempted (failed n h e) f = to_end redis_err n (failed n h e)

      prepare-Ends :
          (family : Family) (reuse : Bool) (n : Net Obj Store Address)
          → IsOpen n
          → Ends fd reuse IsOpen (prepare os family reuse n)
      unfolding prepare
      prepare-Ends family reuse n o =
          and_then-Ends (set_blocking-Ends os false n o) (bind_source-Ends family reuse)

      attempt-Attempted :
          (family : Family) (blocking reuse : Bool) (msec : ℤ) (a : Address)
          (n : Net Obj Store Address)
          → IsShut fd n
          → Attempted fd reuse (attempt os family blocking reuse msec a n)
      unfolding attempt make_socket
      attempt-Attempted family blocking reuse msec a n h =
          let r = os.socket n.log (some a) in
          let n' = (take_socket r n).1 in
          elim (Bool-cases ((take_socket r n).0)) [
            | inl e ↦
                rw (attempt, make_socket, e)
                  (unless_failed-Attempted
                    (prepare-Ends family reuse n' (take_socket-IsOpen r n h e))
                    (connect_to-Attempted blocking reuse msec a))
            | inr e ↦ rw (attempt, make_socket, e) (to_next n' (take_socket-IsShut r n h e))
          ]

      try_address-Tried :
          (family : Family) (blocking reuse : Bool) (msec : ℤ) (a : Address) (left : ℕ)
          (n : Net Obj Store Address)
          → IsShut fd n
          → Tried fd reuse (try_address os family blocking reuse msec a left n)
      unfolding try_address
      try_address-Tried family blocking reuse msec a zero n h =
          again-Tried zero (λ n'. (zero, done redis_err n'))
            (attempt-Attempted family blocking reuse msec a n h)
            λ n' o r. ended_with zero redis_err n' (failed n' (inl o) (inr r))
      try_address-Tried family blocking reuse msec a (suc left) n h =
          again-Tried (suc left)
            (λ n'. try_address os family blocking reuse msec a left (close_fd n'))
            (attempt-Attempted family blocking reuse msec a n h)
            λ n' o r.
              try_address-Tried family blocking reuse msec a left (close_fd n')
                (close_fd-IsShut n' o)

      -- The loop over the addresses starts with no open descriptor.
      pub try_addresses-Ends :
          (family : Family) (blocking reuse : Bool) (msec : ℤ) (addresses : List Address) (left : ℕ)
          (n : Net Obj Store Address)
          → IsShut fd n
          → Ends fd reuse IsConnected (try_addresses os family blocking reuse msec addresses left n)
      unfolding try_addresses
      try_addresses-Ends family blocking reuse msec [] left n h =
          fail_with-Ends other (codes "Can't create socket: " ++ os.strerror n.errno) n refl (inr h)
      try_addresses-Ends family blocking reuse msec (a ∷ rest) left n h =
          onward-Ends (λ left' n'. try_addresses os family blocking reuse msec rest left' n')
            (try_address-Tried family blocking reuse msec a left n h)
            (try_addresses-Ends family blocking reuse msec rest)
