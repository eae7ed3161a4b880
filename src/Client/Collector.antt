-- ===== src/Client/Collector.antt =====
-- client/collector.py: the connections of all pools of one program name, as the pool's events tell.
-- A connection is known by `id(dbapi_connection)`, a number. The collectors of a target share its
-- sets, so a target is one state. Log messages are not modelled.
pub mod Pool
pub mod Handlers
pub mod Tracking
pub mod Counts
use sqlalchemy_collectd.Base.{
  ℕ, ◌+◌, Bool, List, [], ◌∷◌, if◌then◌else◌, length, Eq, nat_eq, list_eq, Result, ok, raise,
  key_error, Option, none, some,
}
use sqlalchemy_collectd.Base.Dict.{Dict, lookup, insert}
use sqlalchemy_collectd.Base.Sets.{mem, add, discard, difference}
use sqlalchemy_collectd.Protocol.Bytes.{Text}

-- `collectors` holds its collectors weakly: the interpreter may take one out (`forget_collector`).
pub record CollectionTarget : Type 0 where
  pub name : Text
  pub collectors : List ℕ
  pub connections : List ℕ
  pub checkedin : List ℕ
  pub invalidated : List ℕ
  pub detached : List ℕ
  pub transactions : List ℕ
  pub total_checkouts : ℕ
  pub total_invalidated : ℕ
  pub total_connects : ℕ
  pub total_disconnects : ℕ

abbrev pub new : Text → CollectionTarget
new name = record {
  name = name;
  collectors = [];
  connections = [];
  checkedin = [];
  invalidated = [];
  detached = [];
  transactions = [];
  total_checkouts = 0;
  total_invalidated = 0;
  total_connects = 0;
  total_disconnects = 0;
}

-- `collection_for_name`: the registry of targets, and the name's own target. The lock makes the
-- test and the write one step.
unfoldable pub collection_for_name :
    Dict Text CollectionTarget → Text → Dict Text CollectionTarget × CollectionTarget
collection_for_name targets name = elim (lookup name targets) [
  | none ↦ (insert name (new name) targets, new name)
  | some t ↦ (targets, t)
]

-- `EngineCollector(...)` enters its target; the interpreter drops it some time after its engine.
unfoldable pub add_collector : ℕ → CollectionTarget → CollectionTarget
add_collector c t = record t { collectors = add c t.collectors }

unfoldable pub forget_collector : ℕ → CollectionTarget → CollectionTarget
forget_collector c t = record t { collectors = discard c t.collectors }

abbrev pub num_pools : CollectionTarget → ℕ
num_pools t = length t.collectors

abbrev pub checkedout : CollectionTarget → List ℕ
checkedout t =
    difference (difference (difference t.connections t.detached) t.invalidated) t.checkedin

abbrev pub num_checkedout : CollectionTarget → ℕ
num_checkedout t = length (checkedout t)

abbrev pub num_checkedin : CollectionTarget → ℕ
num_checkedin t = length t.checkedin

abbrev pub num_detached : CollectionTarget → ℕ
num_detached t = length t.detached

abbrev pub num_invalidated : CollectionTarget → ℕ
num_invalidated t = length t.invalidated

abbrev pub num_connections : CollectionTarget → ℕ
num_connections t = length t.connections

abbrev pub num_transactions : CollectionTarget → ℕ
num_transactions t = length t.transactions

-- The pool's events that `EngineCollector` listens to, with the connection. `invalidate` stands for
-- the soft event too: both have one handler.
pub data Event : Type 0 where
  connect checkout checkin invalidate reset close detach close_detached : ℕ → Event

-- `s.remove(k)` raises a KeyError where `k` is not in the set.
unfoldable pub connect_evt : ℕ → CollectionTarget → CollectionTarget × Result (Unit {0})
connect_evt k t = (
  record t {
    total_connects = t.total_connects + 1;
    connections = add k t.connections;
    checkedin = add k t.checkedin;
  },
  ok tt,
)

-- the checkout is counted before the set is changed
unfoldable pub checkout_evt : ℕ → CollectionTarget → CollectionTarget × Result (Unit {0})
checkout_evt k t =
    let t' : CollectionTarget = record t { total_checkouts = t.total_checkouts + 1 } in
    if mem k t.checkedin
    then (record t' { checkedin = discard k t.checkedin }, ok tt)
    else (t', raise key_error)

unfoldable pub checkin_evt : ℕ → CollectionTarget → CollectionTarget × Result (Unit {0})
checkin_evt k t = (record t { checkedin = add k t.checkedin }, ok tt)

unfoldable pub invalidate_evt : ℕ → CollectionTarget → CollectionTarget × Result (Unit {0})
invalidate_evt k t = (
  record t { total_invalidated = t.total_invalidated + 1; invalidated = add k t.invalidated },
  ok tt,
)

unfoldable pub reset_evt : ℕ → CollectionTarget → CollectionTarget × Result (Unit {0})
reset_evt k t = (record t { transactions = discard k t.transactions }, ok tt)

-- `self.connections.remove(id_)` with its handler: a disconnect is counted if the connection was
-- known, and the KeyError is caught.
abbrev drop_connection : ℕ → CollectionTarget → CollectionTarget
drop_connection k t =
    if mem k t.connections
    then record t {
      connections = discard k t.connections;
      total_disconnects = t.total_disconnects + 1;
    }
    else t

unfoldable pub close_evt : ℕ → CollectionTarget → CollectionTarget × Result (Unit {0})
close_evt k t =
    let t1 : CollectionTarget = record t {
      transactions = discard k t.transactions;
      invalidated = discard k t.invalidated;
      checkedin = discard k t.checkedin;
    } in
    let t2 : CollectionTarget = drop_connection k t1 in
    (record t2 { detached = discard k t2.detached }, ok tt)

unfoldable pub detach_evt : ℕ → CollectionTarget → CollectionTarget × Result (Unit {0})
detach_evt k t = (record t { detached = add k t.detached }, ok tt)

unfoldable pub close_detached_evt : ℕ → CollectionTarget → CollectionTarget × Result (Unit {0})
close_detached_evt k t =
    let t1 : CollectionTarget = record t {
      transactions = discard k t.transactions;
      invalidated = discard k t.invalidated;
      checkedin = discard k t.checkedin;
      detached = discard k t.detached;
    } in
    (drop_connection k t1, ok tt)

unfoldable pub handle : Event → CollectionTarget → CollectionTarget × Result (Unit {0})
unfolding connect_evt checkout_evt checkin_evt invalidate_evt reset_evt close_evt detach_evt
    close_detached_evt
handle (connect k) = connect_evt k
handle (checkout k) = checkout_evt k
handle (checkin k) = checkin_evt k
handle (invalidate k) = invalidate_evt k
handle (reset k) = reset_evt k
handle (close k) = close_evt k
handle (detach k) = detach_evt k
handle (close_detached k) = close_detached_evt k

-- A sequence of events. An exception ends its own event, with what it has written.
unfoldable pub handle_all : List Event → CollectionTarget → CollectionTarget
handle_all [] t = t
handle_all (e ∷ es) t = handle_all es (handle e t).0
