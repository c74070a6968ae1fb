-- ===== src/Net/State.antt =====
-- What net.c reads and writes: the parts of a redisContext that are about its socket, the operating
-- system's answers, and the log of the calls.
use multiplexing_hiredis.Common.{
  ℕ, Bool, true, false, ◌==◌, Option, none, some, List, [], ◌∷◌, if◌then◌else◌, Bytes,
}
use multiplexing_hiredis.Common.Int.{ℤ}
use multiplexing_hiredis.Context.{RedisContext}
use multiplexing_hiredis.Net.Timeout.{Timeval}

-- The values of `errno` that the code tells apart.
pub data ErrorNumber : Type 0 where
  ehostunreach einprogress eaddrnotavail etimedout : ErrorNumber
  another : ℕ → ErrorNumber

abbrev pub is_ehostunreach : ErrorNumber → Bool
is_ehostunreach ehostunreach = true
is_ehostunreach _ = false

abbrev pub is_einprogress : ErrorNumber → Bool
is_einprogress einprogress = true
is_einprogress _ = false

abbrev pub is_eaddrnotavail : ErrorNumber → Bool
is_eaddrnotavail eaddrnotavail = true
is_eaddrnotavail _ = false

-- AF_INET, AF_INET6, AF_LOCAL
pub data Family : Type 0 where
  inet inet6 local : Family

pub data SockOption : Type 0 where
  so_reuseaddr tcp_nodelay so_keepalive : SockOption
  so_rcvtimeo so_sndtimeo : Timeval → SockOption
  tcp_keepidle tcp_keepintvl tcp_keepcnt : ℕ → SockOption

-- The calls that give 0 or -1.
pub data Call (Address : Type 0) : Type 0 where
  fcntl_getfl : Call Address
  fcntl_setfl : Bool → Call Address
  setsockopt : SockOption → Call Address
  bind connect : Address → Call Address
  connect_path : Bytes → Call Address

-- A call that was made: `opened` is a call of socket(2) that gave this number, `asked` one that gave
-- none, or a call of poll(2), getsockopt(2) or getaddrinfo(3).
pub data Logged (Address : Type 0) : Type 0 where
  opened closed : ℕ → Logged Address
  called : Call Address → Logged Address
  asked : Logged Address

pub data SocketResult : Type 0 where
  no_socket : ErrorNumber → SocketResult
  socket_made : ℕ → SocketResult

pub data PollResult : Type 0 where
  poll_failed : ErrorNumber → PollResult
  timed_out ready : PollResult

-- getsockopt of SO_ERROR: -1, or the error that is pending.
pub data PendingResult : Type 0 where
  getsockopt_failed : ErrorNumber → PendingResult
  pending : Option ErrorNumber → PendingResult

-- getaddrinfo: the text of the error, or the addresses.
pub data Resolved (Address : Type 0) : Type 0 where
  unresolved : Bytes → Resolved Address
  resolved : List Address → Resolved Address

-- The operating system and the resolver; `none` is a call that succeeds.
pub record Os (Address : Type 0) : Type 0 where
  pub socket : List (Logged Address) → Option Address → SocketResult
  pub call : List (Logged Address) → Option ℕ → Call Address → Option ErrorNumber
  pub poll : List (Logged Address) → Option ℕ → ℤ → PollResult
  pub so_error : List (Logged Address) → Option ℕ → PendingResult
  pub getaddrinfo : List (Logged Address) → Option Bytes → Option Bytes → Family → Resolved Address
  pub strerror : ErrorNumber → Bytes

-- enum redisConnectionType
pub data ConnectionType : Type 0 where
  conn_tcp conn_unix : ConnectionType

-- A redisContext and its socket: `fd` is none for -1, `reuseaddr` is the bit REDIS_REUSEADDR.
pub record Net (Obj Store Address : Type 0) : Type 0 where
  pub context : RedisContext Obj Store
  pub fd : Option ℕ
  pub reuseaddr : Bool
  pub connection_type : ConnectionType
  pub host : Option Bytes
  pub port : ℕ
  pub source_addr : Option Bytes
  pub path : Option Bytes
  pub timeout : Option Timeval
  pub errno : ErrorNumber
  pub log : List (Logged Address)

-- The descriptors without one of them; `none` if it is not there.
unfoldable pub without : ℕ → List ℕ → Option (List ℕ)
without s [] = none
without s (x ∷ xs) =
    let rest = without s xs in
    if x == s then some xs else elim rest [ none ↦ none | some ys ↦ some (x ∷ ys) ]

-- The descriptors that the calls of the log opened and did not close; `none` if one was closed that
-- was not open.
unfoldable pub held : {Address : Type 0} → List (Logged Address) → Option (List ℕ)
unfolding without
held [] = some []
held (opened s ∷ log) = elim (held log) [ none ↦ none | some fds ↦ some (s ∷ fds) ]
held (closed s ∷ log) = elim (held log) [ none ↦ none | some fds ↦ without s fds ]
held (called k ∷ log) = held log
held (asked ∷ log) = held log
