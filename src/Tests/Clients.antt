-- ===== src/Tests/Clients.antt =====
-- Targets and their messages.
use sqlalchemy_collectd.Base.{
  ℕ, true, List, ◌+◌, ◌≡◌, refl, false, not, ◌&&◌, some, [], ◌∷◌, nat_eq, list_eq, pos, ◌*ℤ◌, ok,
  raise, key_error, arith,
}
use sqlalchemy_collectd.Base.Dict.{Dict}
use sqlalchemy_collectd.Base.Sets.{mem, IsDistinct}
use sqlalchemy_collectd.Protocol.Bytes.{Bytes, Text, pack_header, pack_short, big, little}
use sqlalchemy_collectd.Protocol.Types
use sqlalchemy_collectd.Protocol.Types.{CollectdType, gauge, derive}
use sqlalchemy_collectd.Protocol.Values.{of_seconds}
use sqlalchemy_collectd.Protocol.Packer.{by_name}
use sqlalchemy_collectd.Protocol.Unpacker.{unpack_bytes}
use sqlalchemy_collectd.CollectdTypes.{
  text, pool_name, totals_name, pool_internal, totals_internal, collectd_plugin_name,
}
use sqlalchemy_collectd.Client.Collector.{
  CollectionTarget, Event, connect, checkout, checkin, invalidate, close, handle, handle_all, new,
  checkedout, num_checkedout, num_checkedin, num_detached, num_connections,
}
use sqlalchemy_collectd.Client.Collector.Counts.{IsConsistent, events-IsConsistent}
use sqlalchemy_collectd.Client.Collector.Pool.{
  Pool, empty, moved, marked, absent, idle, out, is_out, connects, checks_out, checks_in_none,
  invalidates, closes_out, Run, start, next, Tracks, after,
}
use sqlalchemy_collectd.Client.Collector.Tracking.{Run-Tracks, Run-returns, num_checkedout-Run}
use sqlalchemy_collectd.Client.Sender.{Sender, send}
use sqlalchemy_collectd.Client.Sender.Delivery.{
  arrived, pool_received, totals_values, send_delivers,
}
use sqlalchemy_collectd.Tests.Samples.{floats}

events-IsConsistent_example :
    IsConsistent (handle_all (connect 5 ∷ checkin 6 ∷ close 7 ∷ checkout 8 ∷ []) (new (text "app")))
events-IsConsistent_example =
    events-IsConsistent (text "app") (connect 5 ∷ checkin 6 ∷ close 7 ∷ checkout 8 ∷ [])

-- a checkout of a connection that is not checked in is counted and raises
unknown_checkout :
    ((handle (checkout 8) (new (text "app"))).1 ≡ raise key_error)
    × ((handle (checkout 8) (new (text "app"))).0.total_checkouts ≡ 1)
unfolding handle
unknown_checkout = (refl, refl)

-- One connection was invalidated in use and closed, and checked in as `None`, whose id is 1.
abbrev after_close : Pool
after_close = marked (moved (marked (moved (moved empty 5 idle) 5 out) 5 true) 5 absent) 5 false

abbrev refilled : Pool
refilled = moved (record after_close { none_in = true }) 6 idle

-- another one is in use
abbrev in_use : Pool
in_use = moved refilled 6 out

abbrev events : List Event
events = connect 6 ∷ checkin 1 ∷ close 5 ∷ invalidate 5 ∷ checkout 5 ∷ connect 5 ∷ []

past : Run 1 empty events refilled
past =
    next (connect 6)
      (next (checkin 1)
        (next (close 5)
          (next (invalidate 5)
            (next (checkout 5) (next (connect 5) start (connects empty 5 refl refl))
              (checks_out (moved empty 5 idle) 5 refl))
            (invalidates (moved (moved empty 5 idle) 5 out) 5 refl))
          (closes_out (marked (moved (moved empty 5 idle) 5 out) 5 true) 5 refl))
        (checks_in_none after_close))
      (connects (record after_close { none_in = true }) 6 refl refl)

history : Run 1 empty (checkout 6 ∷ events) in_use
history = next (checkout 6) past (checks_out refilled 6 refl)

Run-Tracks_example : Tracks 1 in_use (after (checkout 6 ∷ events) (new (text "app")))
Run-Tracks_example = Run-Tracks (text "app") history

Run-returns_example : (handle (checkout 6) (after events (new (text "app")))).1 ≡ ok tt
Run-returns_example = Run-returns (text "app") (checkout 6) past (checks_out refilled 6 refl)

abbrev busy : CollectionTarget
busy = after (checkout 6 ∷ events) (new (text "app"))

num_checkedout-Run_example :
    IsDistinct (checkedout busy)
    × ((j : ℕ) → mem j (checkedout busy) ≡ (is_out (in_use.phase j) && not (in_use.bad j)))
    × (((j : ℕ) → in_use.bad j ≡ false)
        → num_checkedout busy + num_checkedin busy + num_detached busy ≡ num_connections busy + 1)
num_checkedout-Run_example = num_checkedout-Run (text "app") history

-- Nothing but the connection in use is there, and one is shown as checked in.
none_checkedin : (num_connections busy ≡ 1) × (num_checkedin busy ≡ 1) × (num_checkedout busy ≡ 1)
unfolding handle
none_checkedin = (refl, refl, refl)

abbrev pool_type : CollectdType
pool_type = record {
  name = pool_name;
  field_names =
      text "numpools"
      ∷ text "checkedout"
      ∷ text "checkedin"
      ∷ text "detached"
      ∷ text "connections"
      ∷ [];
  value_types = gauge ∷ gauge ∷ gauge ∷ gauge ∷ gauge ∷ [];
  message_template = 0 ∷ 6 ∷ 0 ∷ 51 ∷ 0 ∷ 5 ∷ 1 ∷ 1 ∷ 1 ∷ 1 ∷ 1 ∷ [];
}

abbrev totals_type : CollectdType
totals_type = record {
  name = totals_name;
  field_names = text "checkouts" ∷ text "invalidated" ∷ text "connects" ∷ text "disconnects" ∷ [];
  value_types = derive ∷ derive ∷ derive ∷ derive ∷ [];
  message_template = 0 ∷ 6 ∷ 0 ∷ 42 ∷ 0 ∷ 4 ∷ 2 ∷ 2 ∷ 2 ∷ 2 ∷ [];
}

pool_made : pool_internal ≡ ok pool_type
unfolding Types.init pack_header pack_short big little
pool_made = refl

totals_made : totals_internal ≡ ok totals_type
unfolding Types.init pack_header pack_short big little
totals_made = refl

abbrev known : Dict Text CollectdType
known = (pool_name, pool_type) ∷ (totals_name, totals_type) ∷ []

abbrev sender : Sender
sender = record {
  hostname = text "web1";
  stats_name = text "app";
  plugin = collectd_plugin_name;
  collectd_host = text "localhost";
  collectd_port = 25827;
}

abbrev target : CollectionTarget
target = record (new (text "app")) {
  connections = 5 ∷ 6 ∷ [];
  checkedin = 6 ∷ [];
  total_checkouts = 3;
  total_connects = 2;
}

send_delivers_example :
    (m1 m2 : Bytes) × (send floats
        (by_name (pool_type ∷ totals_type ∷ []))
        sender
        target
        (of_seconds (pos 1517607042))
        (pos 2)
        (text "123:ab12cd")
      ≡ (m1 ∷ m2 ∷ [], ok tt))
    × (unpack_bytes known m1
        ≡ ok (
            some (
              arrived sender
                (of_seconds (pos 1517607042))
                (pos 2)
                (text "123:ab12cd")
                pool_name
                (pool_received floats target))))
    × (unpack_bytes known m2
        ≡ ok (
            some (
              arrived sender
                (of_seconds (pos 1517607042))
                (pos 2)
                (text "123:ab12cd")
                totals_name
                (totals_values target))))
unfolding ◌*ℤ◌
send_delivers_example =
    send_delivers floats sender target (of_seconds (pos 1517607042)) (pos 2) (text "123:ab12cd")
      pool_type totals_type pool_type totals_type known pool_made totals_made refl refl
      (omega arith)
      (record {
        hostname = (refl, omega arith);
        plugin = (refl, omega arith);
        stats_name = (refl, omega arith);
        token = (refl, omega arith);
        interval_fits = refl;
        time_fits = refl;
      })
