-- ===== src/Tests/Wire.antt =====
-- Messages on the wire: the object of tests/test_protocol.py.
use sqlalchemy_collectd.Base.{
  ℕ, true, false, none, map, All, pair_eq, ◌-ℤ◌, ◌≡◌, ◌≢◌, ◌↔◌, refl, some, List, [], ◌∷◌, ◌++◌,
  pos, ◌*ℤ◌, ok, raise, stuck, struct_error, arith, nat_eq, list_eq,
}
use sqlalchemy_collectd.Base.Dict.{Dict}
use sqlalchemy_collectd.Number.{int, float}
use sqlalchemy_collectd.Protocol.Bytes.{
  Bytes, Text, little, of_little, big, of_big, pack_short, pack_header, pack_long, bytes_at,
  unpack_short, unpack_char, unpack_header, unpack_long, ascii, slice_before,
}
use sqlalchemy_collectd.Protocol.Types
use sqlalchemy_collectd.Protocol.Types.{
  ValueType, gauge, derive, CollectdType, encode_values, encode_loop, pack_value, pack_unsigned,
  pack_double,
}
use sqlalchemy_collectd.Protocol.Values.{Values, of_seconds, items}
use sqlalchemy_collectd.Protocol.Packer.{
  by_name, pack_string, pack_integer, pack_time, find_type, pack_values,
}
use sqlalchemy_collectd.Protocol.Unpacker.{
  no_parts, receive, unpack_values, unpack_values_loop, unpack_value, unpack_string, unpack_loop,
  unpack_packet, to_value, checked_value, unpack_bytes,
}
use sqlalchemy_collectd.Protocol.RoundTrip.Message.{as_received, unpack_bytes-pack_values}
use sqlalchemy_collectd.Protocol.RoundTrip.Accepted.{pack_values-Packs}
use sqlalchemy_collectd.Protocol.Loop.{Stalls, unpack_packet-eq-stuck_iff, unpack_loop-unknown_zero}
use sqlalchemy_collectd.CollectdTypes.{text}
use sqlalchemy_collectd.Server.Receiver.{Receiver}
use sqlalchemy_collectd.Server.Receiver.Ownership.{receive_each}
use sqlalchemy_collectd.Server.ReceiverQueue.Rounds.{rounds, objects, rounds-receive_each}
use sqlalchemy_collectd.Network.Connections.{Address}
use sqlalchemy_collectd.Network.Listeners
use sqlalchemy_collectd.Network.Listeners.{Call, received}
use sqlalchemy_collectd.Network.Listeners.Reached.{has, last_helo}
use sqlalchemy_collectd.Network.Forwarding.{Moment, server_sender, send_async}
use sqlalchemy_collectd.Network.Forwarding.Unpacked.{send_async-unpacked}
use sqlalchemy_collectd.Tests.Samples.{floats}

abbrev my_fields : List (Text × ValueType)
my_fields = (text "some_val", gauge) ∷ (text "some_other_val", derive) ∷ []

abbrev my_type : CollectdType
my_type = record {
  name = text "my_type";
  field_names = text "some_val" ∷ text "some_other_val" ∷ [];
  value_types = gauge ∷ derive ∷ [];
  message_template = 0 ∷ 6 ∷ 0 ∷ 24 ∷ 0 ∷ 2 ∷ 1 ∷ 2 ∷ [];
}

program : Unit {0}
unfolding pack_unsigned pack_double Types.init pack_header pack_short pack_long big little
    encode_values encode_loop pack_value pack_string pack_integer pack_time find_type pack_values
    by_name items ascii unpack_header bytes_at of_big of_little receive unpack_string slice_before
    unpack_values unpack_values_loop unpack_value unpack_char unpack_short unpack_long unpack_loop
    unpack_packet to_value checked_value unpack_bytes
program = tt

my_type_made : Types.init (text "my_type") my_fields ≡ ok my_type
unfolding program
my_type_made = refl

abbrev types : Dict Text CollectdType
types = (text "my_type", my_type) ∷ []

abbrev sample : Values
sample = record {
  type = some (text "my_type");
  type_instance = some (text "sometypeinstance");
  plugin = some (text "someplugin");
  plugin_instance = some (text "someplugininstance");
  host = some (text "somehost");
  time = some (of_seconds (pos 1517607042));
  interval = pos 10;
  values = some (float 0x4039cf1a9fbe76c9 ∷ int (pos 450) ∷ []);
}

abbrev value_block : Bytes
value_block =
    0 ∷ 6 ∷ 0 ∷ 24 ∷ 0 ∷ 2 ∷ 1 ∷ 2 ∷ 0xc9 ∷ 0x76 ∷ 0xbe ∷ 0x9f ∷ 0x1a ∷ 0xcf ∷ 0x39 ∷ 0x40 ∷ 0 ∷ 0
    ∷ 0 ∷ 0 ∷ 0 ∷ 0 ∷ 1 ∷ 0xc2 ∷ []

abbrev message : Bytes
message =
    (0 ∷ 0 ∷ 0 ∷ 13 ∷ text "somehost" ++ 0 ∷ [])
    ++ ((0 ∷ 1 ∷ 0 ∷ 12 ∷ 0 ∷ 0 ∷ 0 ∷ 0 ∷ 0x5a ∷ 0x74 ∷ 0xd8 ∷ 0x82 ∷ [])
        ++ ((0 ∷ 2 ∷ 0 ∷ 15 ∷ text "someplugin" ++ 0 ∷ [])
            ++ ((0 ∷ 3 ∷ 0 ∷ 23 ∷ text "someplugininstance" ++ 0 ∷ [])
                ++ ((0 ∷ 4 ∷ 0 ∷ 12 ∷ text "my_type" ++ 0 ∷ [])
                    ++ ((0 ∷ 7 ∷ 0 ∷ 12 ∷ 0 ∷ 0 ∷ 0 ∷ 0 ∷ 0 ∷ 0 ∷ 0 ∷ 10 ∷ [])
                        ++ ((0 ∷ 5 ∷ 0 ∷ 21 ∷ text "sometypeinstance" ++ 0 ∷ [])
                            ++ value_block))))))

sample_packs : pack_values floats types sample ≡ ok message
unfolding program ◌*ℤ◌
sample_packs = refl

found_my_type : find_type types (some (text "my_type")) ≡ ok my_type
unfolding program
found_my_type = refl

unpack_bytes-pack_values_example :
    unpack_bytes types message
    ≡ ok (
        some (
          as_received floats my_type
            (of_seconds (pos 1517607042))
            (float 0x4039cf1a9fbe76c9 ∷ int (pos 450) ∷ [])
            sample))
unpack_bytes-pack_values_example =
    unpack_bytes-pack_values floats types sample my_type (of_seconds (pos 1517607042))
      (float 0x4039cf1a9fbe76c9 ∷ int (pos 450) ∷ []) my_fields types my_type my_type_made
      found_my_type refl refl refl (omega arith, (tt, tt)) (omega arith) sample_packs

-- two monitors, of which one has not said HELO for long
abbrev calls : List (Call Address)
calls =
    received (text "HELO") (text "10.0.0.1", 40001) (of_seconds (pos 1517607000))
    ∷ received (text "HELO") (text "10.0.0.2", 40002) (of_seconds (pos 1517607020))
    ∷ []

abbrev moment : Moment
moment = record {
  now = of_seconds (pos 1517607042);
  connected = true;
  answers = record { getpid = 1; opened = none; sendto_raises = false };
}

send_async-unpacked_example :
    (has
        (text "10.0.0.2", 40002)
        (map
          (λ o. o.address)
          (send_async floats types moment sample (server_sender (Listeners.run calls []))).0.1)
      ≡ true)
    × All
        (λ o.
          unpack_bytes types o.message
          ≡ ok (
              some (
                as_received floats my_type
                  (of_seconds (pos 1517607042))
                  (float 0x4039cf1a9fbe76c9 ∷ int (pos 450) ∷ [])
                  sample)))
        (send_async floats types moment sample (server_sender (Listeners.run calls []))).0.1
unfolding last_helo ◌-ℤ◌ ◌*ℤ◌
send_async-unpacked_example =
    send_async-unpacked floats types sample my_type (of_seconds (pos 1517607042))
      (float 0x4039cf1a9fbe76c9 ∷ int (pos 450) ∷ []) my_fields types my_type message moment calls
      (pos 0) (text "10.0.0.2", 40002) my_type_made found_my_type refl refl refl
      (omega arith, (tt, tt)) (omega arith) sample_packs (omega arith, (omega arith, tt))
      (omega arith)

pack_values-Packs_example : (m : Bytes) × (pack_values floats types sample ≡ ok m)
unfolding program ◌*ℤ◌
pack_values-Packs_example =
    pack_values-Packs floats types sample my_type (of_seconds (pos 1517607042))
      (float 0x4039cf1a9fbe76c9 ∷ int (pos 450) ∷ []) found_my_type (refl, omega arith)
      (refl, omega arith) (refl, omega arith) (refl, omega arith) (refl, omega arith) refl refl refl
      refl (tt, (refl, tt))

-- A message is no stalling packet.
unpack_packet-eq-stuck_iff_example :
    (((fuel : ℕ) → unpack_loop fuel (0 ∷ 9 ∷ 0 ∷ 0 ∷ []) no_parts ≡ stuck)
      ↔ Stalls (0 ∷ 9 ∷ 0 ∷ 0 ∷ []) no_parts)
    × ((¬ Stalls (0 ∷ 9 ∷ 0 ∷ 0 ∷ []) no_parts) → unpack_packet (0 ∷ 9 ∷ 0 ∷ 0 ∷ []) ≢ stuck)
unpack_packet-eq-stuck_iff_example = unpack_packet-eq-stuck_iff (0 ∷ 9 ∷ 0 ∷ 0 ∷ [])

unpack_loop-unknown_zero_example :
    unpack_loop 1000 (big 2 9 ++ (big 2 0 ++ (7 ∷ []))) no_parts ≡ stuck
unpack_loop-unknown_zero_example =
    unpack_loop-unknown_zero 1000 9 (7 ∷ []) (omega arith) (omega arith)

-- a packet that ends inside a header
cut_header : unpack_bytes types (0 ∷ 9 ∷ 0 ∷ []) ≡ raise struct_error
unfolding program
cut_header = refl

-- a receiver without buckets
abbrev receiver : Receiver
receiver = record {
  buckets = [];
  translator = record { type_by_name = []; external_types = [] };
  collectd_types = [];
}

-- a datagram of one byte, and a whole object
abbrev datagrams : List (Bytes × Text)
datagrams = (1 ∷ [], text "10.0.0.9") ∷ (message, text "10.0.0.1") ∷ []

unpacked_short : unpack_bytes types (1 ∷ []) ≡ stuck → ⊥
unfolding program
unpacked_short e = cc

unpacked_message : unpack_bytes types message ≡ stuck → ⊥
unpacked_message e =
    let done =
      unpack_bytes-pack_values floats types sample my_type (of_seconds (pos 1517607042))
        (float 0x4039cf1a9fbe76c9 ∷ int (pos 450) ∷ []) my_fields types my_type my_type_made
        found_my_type refl refl refl (omega arith, (tt, tt)) (omega arith) sample_packs in
    cc

rounds-receive_each_example :
    rounds types 2 (map some datagrams, receiver)
    ≡ ok ([], receive_each (objects types datagrams) receiver)
rounds-receive_each_example =
    rounds-receive_each types datagrams receiver (unpacked_short, (unpacked_message, tt))
