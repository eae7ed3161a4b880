-- ===== src/Network/Connections/Forks.antt =====
-- networking.py: whose socket a process sends through, when processes fork between the calls.
use sqlalchemy_collectd.Base.{
  ℕ, false, Option, none, some, List, [], ◌∷◌, ◌≡◌, ◌≢◌, nat_eq, option_eq, ◌==◌, All, All-append,
  arith,
}
use sqlalchemy_collectd.Base.Dict.{Dict, lookup, lookup-insert}
use sqlalchemy_collectd.Base.{list_eq, pair_eq, beq_refl}
use sqlalchemy_collectd.Protocol.Bytes.{Bytes, Text}
use sqlalchemy_collectd.Network.Connections.{
  Address, Connection, new, for_host_port, Answers, Datagram, check_connect, send, send_each,
}

-- A socket that was opened belongs to the process that opened it, and none is refused.
abbrev pub OpensOwn : (ℕ → ℕ) → Answers → Type 0
OpensOwn owner a = (s : ℕ) × (a.opened ≡ some s) × (owner s ≡ a.getpid)

abbrev pub IsOwn : (ℕ → ℕ) → Connection → Type 0
IsOwn owner c = elim c.socket [
  | none ↦ Unit
  | some s ↦ elim c.pid [ none ↦ Unit | some p ↦ owner s ≡ p ]
]

abbrev pub IsFromOwner : (ℕ → ℕ) → Datagram → Type 0
IsFromOwner owner d = owner d.through ≡ d.sender_pid

send-IsOwn :
    (owner : ℕ → ℕ) (a : Answers) (m : Bytes) (c : Connection)
    → OpensOwn owner a
    → IsOwn owner c
    → IsOwn owner (send a m c).0 × All (IsFromOwner owner) (send a m c).1
unfolding send check_connect
send-IsOwn owner a m c (s, opens, mine) own = ground (arith, own)

All-send_each :
    (owner : ℕ → ℕ) (calls : List (Answers × Bytes)) (c : Connection)
    → All (λ x. OpensOwn owner x.0) calls
    → IsOwn owner c
    → All (IsFromOwner owner) (send_each calls c).1
unfolding send_each
All-send_each owner [] c h own = tt
All-send_each owner ((a, m) ∷ calls) c h own =
    let (own', sent) = send-IsOwn owner a m c h.0 own in
    All-append (IsFromOwner owner) (send a m c).1 (send_each calls (send a m c).0).1 sent
      (All-send_each owner calls (send a m c).0 h.1 own')

-- If no `socket.socket` raises, every datagram goes out through a socket that the sending process
-- has opened itself, however the calls of several processes follow each other.
pub send_each-IsFromOwner :
    (owner : ℕ → ℕ) (calls : List (Answers × Bytes)) (host : Text) (port : ℕ)
    → All (λ x. OpensOwn owner x.0) calls
    → All (IsFromOwner owner) (send_each calls (new host port)).1
unfolding new
send_each-IsFromOwner owner calls host port h = All-send_each owner calls (new host port) h tt

-- The process `q` forked from `p`, and its first `socket.socket` raises: its second message goes out
-- through the socket `s` of `p`.
pub send_each-stale :
    (p q s : ℕ) (new_socket : Option ℕ) (m m₁ m₂ : Bytes) (host : Text) (port : ℕ)
    → p ≢ q
    → (send_each
        ((record { getpid = p; opened = some s; sendto_raises = false }, m)
          ∷ (record { getpid = q; opened = none; sendto_raises = false }, m₁)
          ∷ (record { getpid = q; opened = new_socket; sendto_raises = false }, m₂)
          ∷ [])
        (new host port)).1
      ≡ record { sender_pid = p; through = s; address = (host, port); message = m }
        ∷ record { sender_pid = q; through = s; address = (host, port); message = m₂ }
        ∷ []
unfolding send_each send check_connect new
send_each-stale p q s new_socket m m₁ m₂ host port n = ground arith

-- The second request for a host and a port is given the connection of the first, and the dictionary
-- does not change; a request does not change what another host and port has.
pub for_host_port-shares :
    (d : Dict Address Connection) (host : Text) (port : ℕ) (k : Address)
    → (for_host_port (for_host_port d host port).0 host port
        ≡ ((for_host_port d host port).0, (for_host_port d host port).1))
      × (((host, port) == k) ≡ false → lookup k (for_host_port d host port).0 ≡ lookup k d)
unfolding for_host_port new
for_host_port-shares d host port k = (
  ground (
    arith,
    lookup-insert (host, port) (host, port) (new host port) d,
    beq_refl {A = Address} (host, port),
  ),
  λ n. ground (arith, n, lookup-insert (host, port) k (new host port) d),
)
