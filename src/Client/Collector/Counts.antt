-- ===== src/Client/Collector/Counts.antt =====
-- What holds of a target whatever events arrive, in whatever order.
use sqlalchemy_collectd.Base.{ℕ, ◌+◌, ◌≤◌, List, [], ◌∷◌, length, arith}
use sqlalchemy_collectd.Base.Sets.{
  discard, IsDistinct, add-IsDistinct, discard-IsDistinct, length-discard,
}
use sqlalchemy_collectd.Protocol.Bytes.{Text}
use sqlalchemy_collectd.Client.Collector.{
  CollectionTarget, Event, connect, checkout, checkin, invalidate, reset, close, detach,
  close_detached, handle, handle_all, new, num_connections,
}

-- No set holds a number twice, and the connections that are there are not more than were opened and
-- not closed.
pub record IsConsistent (t : CollectionTarget) : Type 0 where
  pub connections : IsDistinct t.connections
  pub checkedin : IsDistinct t.checkedin
  pub invalidated : IsDistinct t.invalidated
  pub detached : IsDistinct t.detached
  pub transactions : IsDistinct t.transactions
  pub counted : num_connections t + t.total_disconnects ≤ t.total_connects
  pub marked : length t.invalidated ≤ t.total_invalidated

pub length-discard-le : (k : ℕ) (s : List ℕ) → length (discard k s) ≤ length s
length-discard-le k [] = omega arith
length-discard-le k (j ∷ s) = ground (arith, length-discard-le k s)

-- Every event, and every prefix of a sequence of events, keeps a target consistent, also where the
-- event raises.
pub handle-IsConsistent :
    (e : Event) (t : CollectionTarget) → IsConsistent t → IsConsistent (handle e t).0
unfolding handle
handle-IsConsistent (connect k) t h = record {
  connections = add-IsDistinct k t.connections h.connections;
  checkedin = add-IsDistinct k t.checkedin h.checkedin;
  invalidated = h.invalidated;
  detached = h.detached;
  transactions = h.transactions;
  counted = ground (arith, h.counted);
  marked = h.marked;
}
handle-IsConsistent (checkout k) t h = ground (arith, discard-IsDistinct k t.checkedin h.checkedin)
handle-IsConsistent (checkin k) t h = record {
  connections = h.connections;
  checkedin = add-IsDistinct k t.checkedin h.checkedin;
  invalidated = h.invalidated;
  detached = h.detached;
  transactions = h.transactions;
  counted = h.counted;
  marked = h.marked;
}
handle-IsConsistent (invalidate k) t h = record {
  connections = h.connections;
  checkedin = h.checkedin;
  invalidated = add-IsDistinct k t.invalidated h.invalidated;
  detached = h.detached;
  transactions = h.transactions;
  counted = h.counted;
  marked = ground (arith, h.marked);
}
handle-IsConsistent (reset k) t h = record {
  connections = h.connections;
  checkedin = h.checkedin;
  invalidated = h.invalidated;
  detached = h.detached;
  transactions = discard-IsDistinct k t.transactions h.transactions;
  counted = h.counted;
  marked = h.marked;
}
handle-IsConsistent (close k) t h = ground (
  arith,
  discard-IsDistinct k t.connections h.connections,
  discard-IsDistinct k t.checkedin h.checkedin,
  discard-IsDistinct k t.invalidated h.invalidated,
  discard-IsDistinct k t.detached h.detached,
  discard-IsDistinct k t.transactions h.transactions,
  length-discard k t.connections h.connections,
  length-discard-le k t.invalidated,
)
handle-IsConsistent (detach k) t h = record {
  connections = h.connections;
  checkedin = h.checkedin;
  invalidated = h.invalidated;
  detached = add-IsDistinct k t.detached h.detached;
  transactions = h.transactions;
  counted = h.counted;
  marked = h.marked;
}
handle-IsConsistent (close_detached k) t h = ground (
  arith,
  discard-IsDistinct k t.connections h.connections,
  discard-IsDistinct k t.checkedin h.checkedin,
  discard-IsDistinct k t.invalidated h.invalidated,
  discard-IsDistinct k t.detached h.detached,
  discard-IsDistinct k t.transactions h.transactions,
  length-discard k t.connections h.connections,
  length-discard-le k t.invalidated,
)

new-IsConsistent : (name : Text) → IsConsistent (new name)
new-IsConsistent name = omega arith

handle_all-IsConsistent :
    (es : List Event) (t : CollectionTarget) → IsConsistent t → IsConsistent (handle_all es t)
unfolding handle_all
handle_all-IsConsistent [] t h = h
handle_all-IsConsistent (e ∷ es) t h =
    handle_all-IsConsistent es (handle e t).0 (handle-IsConsistent e t h)

-- After any sequence of events, in any order and with any failures, a new target holds no
-- connection twice in a set, at most as many connections as were opened and not closed, and at most
-- as many invalidated ones as there were invalidations.
pub events-IsConsistent : (name : Text) (es : List Event) → IsConsistent (handle_all es (new name))
events-IsConsistent name es = handle_all-IsConsistent es (new name) (new-IsConsistent name)
