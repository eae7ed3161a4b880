-- ===== src/Server/ReceiverQueue.antt =====
-- server/plugin.py: the worker that receives, and what `read` sees of it. util.py: its loop.
pub mod Rounds
use sqlalchemy_collectd.Base.{
  Option, none, some, List, [], ◌∷◌, map, ℤ, Result, ok, raise, stuck, attribute_error, ◌>>=◌,
}
use sqlalchemy_collectd.Base.Dict.{Dict}
use sqlalchemy_collectd.Base.Generator.{Generator, fail}
use sqlalchemy_collectd.Number.{Floats}
use sqlalchemy_collectd.Protocol.Bytes.{Text}
use sqlalchemy_collectd.Protocol.Types.{CollectdType}
use sqlalchemy_collectd.Protocol.Values.{Slots, Values}
use sqlalchemy_collectd.Network.Endpoints.{Queue, receive_async}
use sqlalchemy_collectd.Server.Receiver.{Receiver}
use sqlalchemy_collectd.Server.Receiver
use sqlalchemy_collectd.Server.Stats

-- The receiver is there once `_init_service_awaitable` has run; the constructor does not set the
-- attribute. The queue is the one of the receiver's connection.
pub record ReceiverQueue : Type 0 where
  pub receiver : Option Receiver
  pub packets : Queue

unfoldable pub new : Queue → ReceiverQueue
new packets = record { receiver = none; packets = packets }

unfoldable pub init_service : Receiver → ReceiverQueue → ReceiverQueue
init_service r q = record q { receiver = some r }

-- `summarize`, in which an attribute that is not set raises
unfoldable pub summarize : Floats → ReceiverQueue → ℤ → ReceiverQueue × Generator Values
summarize fl q now = elim q.receiver [
  | none ↦ (q, fail (raise attribute_error))
  | some r ↦ let (r', g) = Stats.summarize fl r now in (record q { receiver = some r' }, g)
]

module _ (types : Dict Text CollectdType) where
  -- what the loop makes of one call of `receive`: an exception is logged, and the loop goes on
  abbrev pub handled : Queue → Receiver → Result (Option Values) → Result (Queue × Receiver)
  handled packets r (ok v) = ok (packets, (Receiver.receive r v).0)
  handled packets r (raise e) = ok (packets, r)
  handled packets r stuck = stuck

  -- One round of the loop in `_run_service`. A call that waits changes nothing.
  unfoldable pub run_service : Queue × Receiver → Result (Queue × Receiver)
  unfolding receive_async
  run_service (packets, r) =
      let (packets', received) = receive_async types packets in
      elim received [ none ↦ ok (packets', r) | some x ↦ handled packets' r x ]
