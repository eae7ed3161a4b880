-- ===== src/Client/Sender.antt =====
-- client/sender.py: the two messages that tell the server about a target.
pub mod Delivery
use sqlalchemy_collectd.Base.{
  ℕ, Option, none, some, List, [], ◌∷◌, Eq, nat_eq, list_eq, pair_eq, ℤ, pos, Result, ok, ◌>>=◌,
}
use sqlalchemy_collectd.Base.Dict.{Dict, lookup, insert}
use sqlalchemy_collectd.Base.Generator.{Generator, done, yield, with_result}
use sqlalchemy_collectd.Number.{Num, int, Floats}
use sqlalchemy_collectd.Protocol.Bytes.{Bytes, Text}
use sqlalchemy_collectd.Protocol.Types.{CollectdType}
use sqlalchemy_collectd.Protocol.Values
use sqlalchemy_collectd.Protocol.Values.{Values, no_slots, build}
use sqlalchemy_collectd.Protocol.Packer.{by_name, pack_values}
use sqlalchemy_collectd.CollectdTypes.{
  collectd_plugin_name, pool_name, totals_name, pool_internal, totals_internal,
}
use sqlalchemy_collectd.Client.Collector.{
  CollectionTarget, num_pools, num_checkedout, num_checkedin, num_detached, num_connections,
}

-- (hostname, stats_name, collectd_host, collectd_port), as pairs
abbrev pub SenderKey : Type 0
SenderKey = (Text × Text) × (Text × ℕ)

-- `message_sender` is a packer for the types below, over the socket of the host and the port.
pub record Sender : Type 0 where
  pub hostname : Text
  pub stats_name : Text
  pub plugin : Text
  pub collectd_host : Text
  pub collectd_port : ℕ

unfoldable pub new : SenderKey → Sender
new ((hostname, stats_name), (host, port)) = record {
  hostname = hostname;
  stats_name = stats_name;
  plugin = collectd_plugin_name;
  collectd_host = host;
  collectd_port = port;
}

unfoldable pub get_sender : Dict SenderKey Sender → SenderKey → Dict SenderKey Sender × Sender
unfolding new
get_sender senders key = elim (lookup key senders) [
  | none ↦ (insert key (new key) senders, new key)
  | some s ↦ (senders, s)
]

-- the types of `senders`, as the decorators register them
unfoldable pub sent_types : Result (List CollectdType)
sent_types = do pool ← pool_internal; totals ← totals_internal; ok (pool ∷ totals ∷ [])

abbrev count : ℕ → Num
count n = int (pos n)

unfoldable pub send_pool : Values → CollectionTarget → Values
send_pool v t = build v λ d. record d {
  type = some pool_name;
  values = some (
      count (num_pools t)
      ∷ count (num_checkedout t)
      ∷ count (num_checkedin t)
      ∷ count (num_detached t)
      ∷ count (num_connections t)
      ∷ []);
}

unfoldable pub send_connection_totals : Values → CollectionTarget → Values
send_connection_totals v t = build v λ d. record d {
  type = some totals_name;
  values = some (
      count t.total_checkouts
      ∷ count t.total_invalidated
      ∷ count t.total_connects
      ∷ count t.total_disconnects
      ∷ []);
}

-- the object that both messages begin with
unfoldable pub base_values : Sender → ℤ → ℤ → Text → Values
base_values s timestamp interval process_token = Values.init (record no_slots {
  host = some s.hostname;
  plugin = some s.plugin;
  plugin_instance = some s.stats_name;
  type_instance = some process_token;
  interval = some interval;
  time = some timestamp;
})

-- `send`: the messages in the order in which the socket is given them. An object that cannot be
-- packed raises, and the messages behind it are not sent.
unfoldable pub send :
    Floats → Dict Text CollectdType → Sender → CollectionTarget → ℤ → ℤ → Text → Generator Bytes
unfolding send_pool send_connection_totals base_values
send fl types s t timestamp interval process_token =
    let v = base_values s timestamp interval process_token in
    with_result (pack_values fl types (send_pool v t)) λ pool.
      yield pool (
        with_result (pack_values fl types (send_connection_totals v t)) λ totals. yield totals done)
