-- ===== src/Network/Forwarding.antt =====
-- networking.py: the asynchronous senders, `UDPClientSender` and `UDPServerSender`, and
-- `AsyncNetworkSender`, which packs for them.
pub mod Unpacked
use sqlalchemy_collectd.Base.{
  Bool, List, [], ◌∷◌, ◌++◌, map, nat_eq, list_eq, pair_eq, if◌then◌else◌, ℤ, Result, ok, raise,
  stuck,
}
use sqlalchemy_collectd.Base.Dict.{Dict}
use sqlalchemy_collectd.Number.{Floats}
use sqlalchemy_collectd.Protocol.Bytes.{Bytes, Text}
use sqlalchemy_collectd.Protocol.Types.{CollectdType}
use sqlalchemy_collectd.Protocol.Values.{Values}
use sqlalchemy_collectd.Protocol.Packer.{pack_values}
use sqlalchemy_collectd.Network.Connections.{Address, Connection, Answers, check_connect}
use sqlalchemy_collectd.Network.Listeners.{send_to_all}

-- a message that a transport is given, and where it goes
pub record Outgoing : Type 0 where
  pub address : Address
  pub message : Bytes

-- `UDPServerSender` has the addresses that said HELO. `UDPClientSender` has a protocol object and the
-- process that made it, where the other kind of client has a socket, and looks after them by the same
-- tests.
pub data AsyncSender : Type 0 where
  server_sender : Dict Address ℤ → AsyncSender
  client_sender : Connection → AsyncSender

-- What is given from outside while a message is sent: the time, whether the transport is there, and
-- the answers of the system.
pub record Moment : Type 0 where
  pub now : ℤ
  pub connected : Bool
  pub answers : Answers

abbrev pub Sending : Type 0
Sending = (AsyncSender × List Outgoing) × Result (Unit {0})

-- `UDPServerSender.send_async`, `UDPClientSender.send_async`
unfoldable pub send_message : Moment → Bytes → AsyncSender → Sending
unfolding send_to_all check_connect
send_message at message (server_sender addrs) =
    let (reached, addrs') = send_to_all at.now at.connected addrs in
    ((server_sender addrs', map (λ a. record { address = a; message = message }) reached), ok tt)
send_message at message (client_sender c) =
    let (c', r) = check_connect at.answers c in
    elim r [
      | ok protocol ↦ (
        (
          client_sender c',
          if at.connected
              then record { address = (c.host, c.port); message = message } ∷ []
              else [],
        ),
        ok tt,
      )
      | raise e ↦ ((client_sender c', []), raise e)
      | stuck ↦ ((client_sender c', []), stuck)
    ]

-- `AsyncNetworkSender.send_async`
unfoldable pub send_async :
    Floats → Dict Text CollectdType → Moment → Values → AsyncSender → Sending
unfolding send_message
send_async fl types at v sender = elim (pack_values fl types v) [
  | ok message ↦ send_message at message sender
  | raise e ↦ ((sender, []), raise e)
  | stuck ↦ ((sender, []), stuck)
]
