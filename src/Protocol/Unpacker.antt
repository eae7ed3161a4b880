-- ===== src/Protocol/Unpacker.antt =====
-- The class `MessageUnpacker` of protocol.py: the parts of a packet, read one after another.
use sqlalchemy_collectd.Base.{
  ℕ, zero, suc, ◌+◌, Option, none, some, List, [], ◌∷◌, nat_beq, if◌then◌else◌, nat_eq, list_eq,
  length, drop, ℤ, pos, Result, ok, raise, stuck, key_error, ◌>>=◌,
}
use sqlalchemy_collectd.Base.Dict.{Dict, lookup}
use sqlalchemy_collectd.Number.{Num, int, float}
use sqlalchemy_collectd.Protocol.Bytes.{
  Bytes, Text, of_little, of_big, bytes_at, unpack_short, unpack_char, unpack_header, unpack_long,
  ascii, slice_before,
}
use sqlalchemy_collectd.Protocol.Types.{
  ValueType, counter, gauge, derive, absolute, value_type_of, CollectdType, type_host, type_time,
  type_plugin, type_plugin_instance, type_type, type_type_instance, type_values, type_interval,
}
use sqlalchemy_collectd.Protocol.Values.{Values, init, of_seconds}

-- `header.size`, and the offset of the type codes in a part with values
abbrev pub header_size : ℕ
header_size = 4

abbrev pub types_start : ℕ
types_start = 6

-- The dictionary `result`: what the last part of each kind held.
pub record Parts : Type 0 where
  pub host : Option Text
  pub time : Option ℤ
  pub plugin : Option Text
  pub plugin_instance : Option Text
  pub type : Option Text
  pub type_instance : Option Text
  pub values : Option (List Num)
  pub interval : Option ℤ

abbrev pub no_parts : Parts
no_parts = record {
  host = none;
  time = none;
  plugin = none;
  plugin_instance = none;
  type = none;
  type_instance = none;
  values = none;
  interval = none;
}

-- `_value_formats[value_type].unpack_from`
unfoldable pub unpack_value : ValueType → Bytes → ℕ → Result Num
unfolding bytes_at
unpack_value counter buf at = do bs ← bytes_at 8 buf at; ok (int (pos (of_big bs)))
unpack_value gauge buf at = do bs ← bytes_at 8 buf at; ok (float (of_little bs))
unpack_value derive buf at = do z ← unpack_long buf at; ok (int z)
unpack_value absolute buf at = do bs ← bytes_at 8 buf at; ok (int (pos (of_big bs)))

unfoldable pub find_format : ℕ → Result ValueType
find_format c = elim (value_type_of c) [ none ↦ raise key_error | some t ↦ ok t ]

-- The loop of `_unpack_values` over the `n` codes from `types_at` on. Every format has 8 bytes.
unfoldable pub unpack_values_loop : ℕ → Bytes → ℕ → ℕ → Result (List Num)
unpack_values_loop zero buf types_at values_pos = ok []
unpack_values_loop (suc n) buf types_at values_pos = do
  c ← unpack_char buf types_at
  t ← find_format c
  x ← unpack_value t buf values_pos
  xs ← unpack_values_loop n buf (types_at + 1) (values_pos + 8)
  ok (x ∷ xs)

unfoldable pub unpack_values : Bytes → Result (List Num)
unpack_values buf = do
  num ← unpack_short buf header_size
  unpack_values_loop num buf types_start (types_start + num)

unfoldable pub unpack_string : ℕ → Bytes → Result Text
unpack_string len_ buf = ascii (slice_before buf header_size len_)

-- The receiver of a part, and the write of its value. A part of an unknown kind is passed over.
unfoldable pub receive : ℕ → ℕ → Bytes → Parts → Result Parts
unfolding unpack_string
receive type_ len_ buf r =
    if nat_beq type_ type_host
    then (do s ← unpack_string len_ buf; ok (record r { host = some s }))
    else if nat_beq type_ type_time
    then (do z ← unpack_long buf header_size; ok (record r { time = some z }))
    else if nat_beq type_ type_plugin
    then (do s ← unpack_string len_ buf; ok (record r { plugin = some s }))
    else if nat_beq type_ type_plugin_instance
    then (do s ← unpack_string len_ buf; ok (record r { plugin_instance = some s }))
    else if nat_beq type_ type_type
    then (do s ← unpack_string len_ buf; ok (record r { type = some s }))
    else if nat_beq type_ type_type_instance
    then (do s ← unpack_string len_ buf; ok (record r { type_instance = some s }))
    else if nat_beq type_ type_values
    then (do xs ← unpack_values buf; ok (record r { values = some xs }))
    else if nat_beq type_ type_interval
    then (do z ← unpack_long buf header_size; ok (record r { interval = some z }))
    else ok r

-- The loop of `_unpack_packet`: the buffer is what lies from `pos` on, so that `pos < length` says
-- that it is not empty. The fuel bounds the number of rounds.
unfoldable pub unpack_loop : ℕ → Bytes → Parts → Result Parts
unpack_loop fuel [] r = ok r
unpack_loop zero (b ∷ bs) r = stuck
unpack_loop (suc fuel) (b ∷ bs) r = do
  (type_, len_) ← unpack_header (b ∷ bs)
  r' ← receive type_ len_ (b ∷ bs) r
  unpack_loop fuel (drop len_ (b ∷ bs)) r'

unfoldable pub unpack_packet : Bytes → Result Parts
unfolding unpack_loop
unpack_packet buf = unpack_loop (length buf) buf no_parts

abbrev pub required : {A : Type 0} → Option A → Result A
required none = raise key_error
required (some a) = ok a

unfoldable pub to_value : Parts → Result Values
to_value r = do
  host ← required r.host
  time ← required r.time
  plugin ← required r.plugin
  plugin_instance ← required r.plugin_instance
  type ← required r.type
  type_instance ← required r.type_instance
  values ← required r.values
  interval ← required r.interval
  ok (
      init (record {
        type = some type;
        type_instance = some type_instance;
        plugin = some plugin;
        plugin_instance = some plugin_instance;
        host = some host;
        time = some (of_seconds time);
        interval = some interval;
        values = some values;
      }))

-- A packet with no type, or with a type that is not known, is skipped: `none`.
unfoldable pub checked_value : Dict Text CollectdType → Parts → Option Text → Result (Option Values)
checked_value types r none = ok none
checked_value types r (some name) = elim (lookup name types) [
  | none ↦ ok none
  | some t ↦ do v ← to_value r; ok (some v)
]

unfoldable pub unpack_bytes : Dict Text CollectdType → Bytes → Result (Option Values)
unfolding unpack_packet checked_value
unpack_bytes types buf = do r ← unpack_packet buf; checked_value types r r.type
