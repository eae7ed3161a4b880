-- ===== src/Network/Endpoints.antt =====
-- networking.py: the queue of a receiver, and the ends that pack and unpack.
pub mod Order
use sqlalchemy_collectd.Base.{
  Option, none, some, List, [], ◌∷◌, ◌++◌, Result, ok, raise, stuck, io_error,
}
use sqlalchemy_collectd.Base.Dict.{Dict}
use sqlalchemy_collectd.Number.{Floats}
use sqlalchemy_collectd.Protocol.Bytes.{Bytes, Text}
use sqlalchemy_collectd.Protocol.Types.{CollectdType}
use sqlalchemy_collectd.Protocol.Values.{Values}
use sqlalchemy_collectd.Protocol.Packer.{pack_values}
use sqlalchemy_collectd.Protocol.Unpacker.{unpack_bytes}
use sqlalchemy_collectd.Network.Connections.{Answers, Connection, Datagram}
use sqlalchemy_collectd.Network.Connections

-- the calls that the event loop makes of a protocol object
pub data Arrival : Type 0 where
  datagram_received : Bytes → Text → Arrival
  connection_lost : Arrival

-- `none` is the mark of the end.
abbrev pub Queue : Type 0
Queue = List (Option (Bytes × Text))

abbrev pub entry : Arrival → Option (Bytes × Text)
entry (datagram_received buf addr) = some (buf, addr)
entry connection_lost = none

unfoldable pub put_nowait : Queue → Arrival → Queue
put_nowait q x = q ++ entry x ∷ []

unfoldable pub put_each : Queue → List Arrival → Queue
unfolding put_nowait
put_each q [] = q
put_each q (x ∷ xs) = put_each (put_nowait q x) xs

-- The second part is `none` where the call waits.
unfoldable pub recvfrom : Queue → Queue × Option (Result (Bytes × Text))
recvfrom [] = ([], none)
recvfrom (none ∷ q) = (q, some (raise io_error))
recvfrom (some rec ∷ q) = (q, some (ok rec))

module _ (types : Dict Text CollectdType) where
  -- `AsyncNetworkReceiver.receive_async`
  unfoldable pub receive_async : Queue → Queue × Option (Result (Option Values))
  unfolding recvfrom
  receive_async q =
      let (q', r) = recvfrom q in
      elim r [
        | none ↦ (q', none)
        | some r' ↦ elim r' [
          | ok rec ↦ (q', some (unpack_bytes types rec.0))
          | raise e ↦ (q', some (raise e))
          | stuck ↦ (q', some stuck)
        ]
      ]

-- `NetworkSender.send`: what cannot be packed raises before the socket is used.
unfoldable pub send :
    Floats
    → Dict Text CollectdType
    → Answers
    → Values
    → Connection
    → (Connection × List Datagram) × Result (Unit {0})
send fl types a v c = elim (pack_values fl types v) [
  | ok message ↦ (Connections.send a message c, ok tt)
  | raise e ↦ ((c, []), raise e)
  | stuck ↦ ((c, []), stuck)
]
