-- ===== src/Tests/Sockets.antt =====
-- Sockets at concrete inputs.
use multiplexing_hiredis.Common.{
  ℕ, ◌≡◌, ◌<◌, ◌≤◌, ◌+◌, ◌*◌, ◌/◌, ◌^◌, ◌==◌, ◌⊎◌, refl, true, false, Option, none, some, [], ◌∷◌,
  if◌then◌else◌, length, codes, arith,
}
use multiplexing_hiredis.Reader.State.{redis_err}
use multiplexing_hiredis.Context.{new_context}
use multiplexing_hiredis.Net.Timeout.{Timeval, int_max, timeout_msec, usec_of, timeout_msec_rounded}
use multiplexing_hiredis.Net.State.{
  ErrorNumber, ehostunreach, einprogress, another, connect, Call, opened, held, Os, Net,
  socket_made, ready, pending, resolved, unresolved,
}
use multiplexing_hiredis.Net.Connect.{connect_tcp, connect_unix}
use multiplexing_hiredis.Net.Connect.Held.{Ends}
use multiplexing_hiredis.Net.Connect.Attempts.{IsConnected}
use multiplexing_hiredis.Net.Connect.Ends.{connect_tcp-Ends, connect_unix-Ends}
use multiplexing_hiredis.Net.Contexts.{unconnected, dial_tcp, dialled, free, reconnect}
use multiplexing_hiredis.Net.Contexts.Closes.{
  IsReleased, dialled-IsReleased, reconnect-Ends, free-reconnect_twice,
}

abbrev two_and_a_half : Timeval
two_and_a_half = record { tv_sec = 2; tv_usec = 500001 }

timeout_msec_rounded_example :
    (2501 ≤ int_max)
    × (2501 * 1000 < usec_of two_and_a_half + 1000)
    × ((2501 ≡ int_max) ⊎ (usec_of two_and_a_half ≤ 2501 * 1000))
    × (two_and_a_half.tv_sec * 1000 + (two_and_a_half.tv_usec + 999) / 1000 < 2 ^ 63)
unfolding timeout_msec
timeout_msec_rounded_example = timeout_msec_rounded two_and_a_half 2501 refl

-- The address 1 cannot be reached, and a connection to another one is under way.
abbrev answer : Call ℕ → Option ErrorNumber
answer (connect a) = if a == 1 then some ehostunreach else some einprogress
answer _ = none

-- A host of two addresses.
abbrev two_addresses : Os ℕ
two_addresses = record {
  socket = λ log a. socket_made (3 + length log);
  call = λ log fd k. answer k;
  poll = λ log fd msec. ready;
  so_error = λ log fd. pending none;
  getaddrinfo = λ log node service family. resolved (1 ∷ 2 ∷ []);
  strerror = λ e. codes "error";
}

-- A resolver that finds nothing.
abbrev no_addresses : Os ℕ
no_addresses = record two_addresses {
  getaddrinfo = λ log node service family. unresolved (codes "unknown");
}

abbrev new_net : Net ℕ ℕ ℕ
new_net = unconnected (another 0) (new_context 0)

connect_tcp-Ends_example :
    Ends
      (some 0)
      false
      IsConnected
      (connect_tcp two_addresses (some (codes "host")) 6379 none none new_net)
unfolding held
connect_tcp-Ends_example =
    connect_tcp-Ends two_addresses (some (codes "host")) 6379 none none new_net refl

connect_unix-Ends_example :
    Ends (some 0) false IsConnected (connect_unix two_addresses (codes "/tmp/s") none new_net)
unfolding held timeout_msec
connect_unix-Ends_example = connect_unix-Ends two_addresses (codes "/tmp/s") none new_net refl

dialled-IsReleased_example :
    IsReleased
      (free (dialled two_addresses (dial_tcp (codes "host") 6379 none none true false) new_net))
unfolding held
dialled-IsReleased_example =
    dialled-IsReleased two_addresses (dial_tcp (codes "host") 6379 none none true false) new_net
      refl refl

abbrev open_net : Net ℕ ℕ ℕ
open_net = record new_net {
  fd = some 3;
  host = some (codes "host");
  port = 6379;
  log = opened 3 ∷ [];
}

reconnect-Ends_example : Ends (some 3) false IsConnected (reconnect two_addresses 0 open_net)
unfolding held
reconnect-Ends_example = reconnect-Ends two_addresses 0 open_net 3 refl (omega arith) refl

free-reconnect_twice_example :
    ((reconnect no_addresses 0 open_net).0 ≡ redis_err)
    × (held (free ((reconnect no_addresses 0 open_net).1)) ≡ none)
unfolding held timeout_msec
free-reconnect_twice_example =
    free-reconnect_twice no_addresses 0 open_net 3 (codes "unknown") refl (omega arith) refl refl
      (λ e. ground arith) (λ log node service family. refl)
