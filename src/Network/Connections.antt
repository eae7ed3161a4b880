-- ===== src/Network/Connections.antt =====
-- networking.py: the client's sockets, `SyncOnlyUDPClientSender`. The mutexes make each call one step.
pub mod Forks
use sqlalchemy_collectd.Base.{
  ℕ, Bool, ◌||◌, not, Option, none, some, List, [], ◌∷◌, ◌++◌, if◌then◌else◌, nat_eq, list_eq,
  pair_eq, option_eq, ◌==◌, Result, ok, raise, stuck, io_error,
}
use sqlalchemy_collectd.Base.Dict.{Dict, lookup, insert}
use sqlalchemy_collectd.Protocol.Bytes.{Bytes, Text}

-- (host, port)
abbrev pub Address : Type 0
Address = Text × ℕ

-- A socket is a number that the operating system gives.
pub record Connection : Type 0 where
  pub host : Text
  pub port : ℕ
  pub socket : Option ℕ
  pub pid : Option ℕ

unfoldable pub new : Text → ℕ → Connection
new host port = record { host = host; port = port; socket = none; pid = none }

-- The dictionary is shared by all users of the class, and so is each connection in it.
unfoldable pub for_host_port :
    Dict Address Connection → Text → ℕ → Dict Address Connection × Connection
unfolding new
for_host_port connections host port = elim (lookup (host, port) connections) [
  | none ↦ (insert (host, port) (new host port) connections, new host port)
  | some c ↦ (connections, c)
]

-- What the system answers in one call: the process id, the socket that `socket.socket` would open,
-- if it does not raise, and whether `sendto` raises.
pub record Answers : Type 0 where
  pub getpid : ℕ
  pub opened : Option ℕ
  pub sendto_raises : Bool

pub record Datagram : Type 0 where
  pub sender_pid : ℕ
  pub through : ℕ
  pub address : Address
  pub message : Bytes

abbrev pub is_missing : Option ℕ → Bool
is_missing none = Bool.true
is_missing (some s) = Bool.false

-- The process id is written before the socket is opened.
unfoldable pub check_connect : Answers → Connection → Connection × Result ℕ
check_connect a c =
    if is_missing c.socket || not (c.pid == some a.getpid)
    then elim a.opened [
      | none ↦ (record c { pid = some a.getpid }, raise io_error)
      | some s ↦ (record c { pid = some a.getpid; socket = some s }, ok s)
    ]
    else (c, elim c.socket [ none ↦ raise io_error | some s ↦ ok s ])

-- An IOError is logged, and the call returns. The list has the datagram that the system was given.
unfoldable pub send : Answers → Bytes → Connection → Connection × List Datagram
unfolding check_connect
send a message c =
    let (c', r) = check_connect a c in
    elim r [
      | ok s ↦ (
        c',
        (if a.sendto_raises
            then []
            else record {
              sender_pid = a.getpid;
              through = s;
              address = (c.host, c.port);
              message = message;
            }
              ∷ []),
      )
      | raise e ↦ (c', [])
      | stuck ↦ (c', [])
    ]

-- several calls, in the order in which the mutex lets them in
unfoldable pub send_each : List (Answers × Bytes) → Connection → Connection × List Datagram
unfolding send
send_each [] c = (c, [])
send_each ((a, message) ∷ calls) c =
    let (c', out) = send a message c in let (c'', outs) = send_each calls c' in (c'', out ++ outs)
