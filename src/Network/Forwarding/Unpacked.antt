-- ===== src/Network/Forwarding/Unpacked.antt =====
-- networking.py: who is sent a message, and what arrives there.
use sqlalchemy_collectd.Base.{
  ◌≤◌, ◌≡◌, refl, ap, ◌∙◌, ◌&&◌, none, some, List, [], ◌∷◌, map, length, All, nat_eq, list_eq,
  pair_eq, ℤ, ◌≤ℤ◌, ok,
}
use sqlalchemy_collectd.Base.Dict.{Dict, lookup}
use sqlalchemy_collectd.Number.{Num, IsNum, Floats}
use sqlalchemy_collectd.Protocol.Bytes.{Bytes, Text}
use sqlalchemy_collectd.Protocol.Types
use sqlalchemy_collectd.Protocol.Types.{ValueType, CollectdType}
use sqlalchemy_collectd.Protocol.Values.{Values}
use sqlalchemy_collectd.Protocol.Packer.{find_type, pack_values}
use sqlalchemy_collectd.Protocol.Unpacker.{unpack_bytes}
use sqlalchemy_collectd.Protocol.RoundTrip.Message.{as_received, unpack_bytes-pack_values}
use sqlalchemy_collectd.Network.Connections.{Address}
use sqlalchemy_collectd.Network.Listeners
use sqlalchemy_collectd.Network.Listeners.{Call, send_to_all}
use sqlalchemy_collectd.Network.Listeners.Reached.{
  AreOrdered, last_time, is_fresh, last_helo, has, send_to_all-has,
}
use sqlalchemy_collectd.Network.Forwarding.{
  Outgoing, Moment, server_sender, send_message, send_async,
}

-- one message for many
abbrev copies : Bytes → List Address → List Outgoing
copies message = map (λ a. record { address = a; message = message })

copies-addresses :
    (message : Bytes) (addrs : List Address) → map (λ o. o.address) (copies message addrs) ≡ addrs
copies-addresses message [] = refl
copies-addresses message (a ∷ addrs) = ap (◌∷◌ a) (copies-addresses message addrs)

All-copies :
    (P : Bytes → Type 0) (message : Bytes) (addrs : List Address)
    → P message
    → All (λ o. P o.message) (copies message addrs)
All-copies P message [] h = tt
All-copies P message (a ∷ addrs) h = (h, All-copies P message addrs h)

send_async-copies :
    (fl : Floats) (types : Dict Text CollectdType) (at : Moment) (v : Values)
    (addrs : Dict Address ℤ) {message : Bytes}
    → pack_values fl types v ≡ ok message
    → (send_async fl types at v (server_sender addrs)).0.1
      ≡ copies message (send_to_all at.now at.connected addrs).0
unfolding send_async send_message
send_async-copies fl types at v addrs h = rw (h, send_async) refl

-- Where the sender's type was built by `Type(...)` and the monitor knows a type of its name, for an
-- object of the type that has a time and at least as many values as the type, and that `pack_values`
-- accepts, after any calls at times that do not go back: an address is sent a datagram exactly when
-- the transport is there and the last HELO of the address is at most 30 seconds old; and each datagram
-- that goes out is unpacked to an object with the same texts, `None` texts empty, the same interval,
-- the time cut to whole seconds, and as many of the values as the type has, gauges as floats.
pub send_async-unpacked :
    (fl : Floats) (types : Dict Text CollectdType) (v : Values) (t : CollectdType) (time : ℤ)
    (xs : List Num) (db : List (Text × ValueType)) (known : Dict Text CollectdType)
    (t' : CollectdType) (message : Bytes) (at : Moment) (cs : List (Call Address)) (start : ℤ)
    (a : Address)
    → Types.init t.name db ≡ ok t
    → find_type types v.type ≡ ok t
    → lookup t.name known ≡ some t'
    → v.time ≡ some time
    → v.values ≡ some xs
    → All IsNum xs
    → length t.value_types ≤ length xs
    → pack_values fl types v ≡ ok message
    → AreOrdered start cs
    → last_time start cs ≤ℤ at.now
    → (has a (
          map (λ o. o.address) (send_async fl types at v (server_sender (Listeners.run cs []))).0.1)
        ≡ (at.connected && is_fresh at.now (last_helo a none cs)))
      × All
          (λ o. unpack_bytes known o.message ≡ ok (some (as_received fl t time xs v)))
          (send_async fl types at v (server_sender (Listeners.run cs []))).0.1
send_async-unpacked fl types v t time xs db known t' message at cs start a built found is_known
      timed vals nums long h ordered late =
    let reached = (send_to_all at.now at.connected (Listeners.run cs [])).0 in
    rw (send_async-copies fl types at v (Listeners.run cs []) h) (
      ap (has a) (copies-addresses message reached)
          ∙ send_to_all-has cs start at.now at.connected a ordered late,
      All-copies (λ m. unpack_bytes known m ≡ ok (some (as_received fl t time xs v))) message
          reached
          (unpack_bytes-pack_values fl types v t time xs db known t' built found is_known timed vals
            nums long h),
    )
