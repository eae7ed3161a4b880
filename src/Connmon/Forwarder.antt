-- ===== src/Connmon/Forwarder.antt =====
-- connmon/plugin.py: the messages of collectd that go out to the monitors. util.py: the loop of the
-- worker that sends them.
pub mod Order
use sqlalchemy_collectd.Base.{
  Bool, true, Option, none, some, List, [], ◌∷◌, ◌++◌, if◌then◌else◌, nat_eq, list_eq, option_eq,
  pair_eq, ◌>>=◌, ◌==◌, ℤ, Result, ok, raise, stuck,
}
use sqlalchemy_collectd.Base.Dict.{Dict}
use sqlalchemy_collectd.Number.{Floats}
use sqlalchemy_collectd.Protocol.Bytes.{Bytes, Text}
use sqlalchemy_collectd.Protocol.Types.{CollectdType}
use sqlalchemy_collectd.Protocol.Values.{Slots, Values, from_collectd_values}
use sqlalchemy_collectd.CollectdTypes.{collectd_plugin_name, derive_external, count_external}
use sqlalchemy_collectd.Protocol.Packer.{by_name}
use sqlalchemy_collectd.Network.Connections.{Address}
use sqlalchemy_collectd.Network.Listeners
use sqlalchemy_collectd.Network.Forwarding.{
  Outgoing, AsyncSender, server_sender, client_sender, Moment, send_async,
}

-- `CollectdAsyncSenderQueue`: whether its loop is running, the messages in its queue, its senders.
-- Before `_init_service_awaitable` there is no loop.
pub record SenderQueue : Type 0 where
  pub is_running : Bool
  pub queue : List Values
  pub senders : List AsyncSender

-- the types that are forwarded
unfoldable pub forwarded_types : Result (Dict Text CollectdType)
forwarded_types = do
  derive ← derive_external
  count ← count_external
  ok (by_name (derive ∷ count ∷ []))

-- `_init_service_awaitable`
unfoldable pub init_service : List AsyncSender → SenderQueue
init_service senders = record { is_running = true; queue = []; senders = senders }

-- `send`
unfoldable pub send : Values → SenderQueue → SenderQueue
send v q = if q.is_running then record q { queue = q.queue ++ v ∷ [] } else q

-- `write`, of an object of collectd; `message_sender_fn` is the `send` of the queue
unfoldable pub write : Slots → SenderQueue → SenderQueue
unfolding send from_collectd_values
write cd q = if cd.plugin == some collectd_plugin_name then send (from_collectd_values cd) q else q

-- One message for each sender, until one raises.
unfoldable pub send_to_each :
    Floats
    → Dict Text CollectdType
    → Moment
    → Values
    → List AsyncSender
    → (List AsyncSender × List Outgoing) × Result (Unit {0})
unfolding send_async
send_to_each fl types at v [] = (([], []), ok tt)
send_to_each fl types at v (s ∷ ss) =
    let ((s', out), r) = send_async fl types at v s in
    let ((ss', outs), r') = send_to_each fl types at v ss in
    elim r [
      | ok done ↦ ((s' ∷ ss', out ++ outs), r')
      | raise e ↦ ((s' ∷ ss, out), raise e)
      | stuck ↦ ((s' ∷ ss, out), stuck)
    ]

-- One round of the loop in `_run_service`: what was taken from the queue, and what went out. An
-- exception is logged, and the loop goes on. An empty queue is waited for.
unfoldable pub run_service :
    Floats
    → Dict Text CollectdType
    → Moment
    → SenderQueue
    → SenderQueue × Option (Values × List Outgoing)
unfolding send_to_each
run_service fl types at q = elim q.queue [
  | [] ↦ (q, none)
  | v ∷ vs ↦
      let ((senders, outs), r) = send_to_each fl types at v q.senders in
      (record q { queue = vs; senders = senders }, some (v, outs))
]

-- a datagram for the sender that listens
abbrev pub hear : Bytes → Address → ℤ → List AsyncSender → List AsyncSender
hear datagram addr now [] = []
hear datagram addr now (server_sender addrs ∷ ss) =
    server_sender (Listeners.datagram_received datagram addr now addrs) ∷ ss
hear datagram addr now (client_sender c ∷ ss) = client_sender c ∷ hear datagram addr now ss

-- what happens to the queue, one after the other
pub data Event : Type 0 where
  written : Slots → Event
  heard : Bytes → Address → ℤ → Event
  served : Moment → Event

abbrev pub and_served :
    Option (Values × List Outgoing)
    → SenderQueue × List (Values × List Outgoing)
    → SenderQueue × List (Values × List Outgoing)
and_served none rest = rest
and_served (some sent) (q, all) = (q, sent ∷ all)

unfoldable pub run :
    Floats
    → Dict Text CollectdType
    → List Event
    → SenderQueue
    → SenderQueue × List (Values × List Outgoing)
unfolding write run_service
run fl types [] q = (q, [])
run fl types (written cd ∷ events) q = run fl types events (write cd q)
run fl types (heard datagram addr now ∷ events) q =
    run fl types events (record q { senders = hear datagram addr now q.senders })
run fl types (served at ∷ events) q =
    let (q', sent) = run_service fl types at q in and_served sent (run fl types events q')
