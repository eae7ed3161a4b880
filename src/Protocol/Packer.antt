-- ===== src/Protocol/Packer.antt =====
-- The class `MessagePacker` of protocol.py: a `Values` object as one message.
use sqlalchemy_collectd.Base.{
  ℕ, ◌+◌, Option, none, some, List, [], ◌∷◌, ◌++◌, nat_eq, list_eq, length, ℤ, Result, ok, raise,
  type_error, ◌>>=◌,
}
use mathlib.Core.List.{foldl}
use sqlalchemy_collectd.Base.Dict.{Dict, lookup, insert}
use sqlalchemy_collectd.Number.{Floats}
use sqlalchemy_collectd.Protocol.Bytes.{Bytes, Text, pack_header, pack_long, ascii}
use sqlalchemy_collectd.Protocol.Types.{
  CollectdType, type_host, type_time, type_plugin, type_plugin_instance, type_type,
  type_type_instance, type_interval, encode_values,
}
use sqlalchemy_collectd.Protocol.Values.{Values, int_of, items}

-- `{type_.name: type_ for type_ in types}`
unfoldable pub by_name : List CollectdType → Dict Text CollectdType
by_name = foldl (λ d t. insert t.name t d) []

abbrev pub or_empty : Option Text → Text
or_empty none = []
or_empty (some s) = s

unfoldable pub pack_string : ℕ → Option Text → Result Bytes
pack_string typecode value = do
  let s = or_empty value
  part_header ← pack_header typecode (5 + length s)
  body ← ascii s
  ok (part_header ++ (body ++ (0 ∷ [])))

-- `struct.pack("!HHq", typecode, 12, z)`
unfoldable pub pack_integer : ℕ → ℤ → Result Bytes
pack_integer typecode z = do
  part_header ← pack_header typecode 12
  body ← pack_long z
  ok (part_header ++ body)

unfoldable pub pack_time : Option ℤ → Result Bytes
unfolding pack_integer
pack_time none = raise type_error
pack_time (some t) = pack_integer type_time (int_of t)

-- an object with no type, or with a type that is not known, is a TypeError
unfoldable pub find_type : Dict Text CollectdType → Option Text → Result CollectdType
find_type types none = raise type_error
find_type types (some name) = elim (lookup name types) [ none ↦ raise type_error | some t ↦ ok t ]

unfoldable pub pack_values : Floats → Dict Text CollectdType → Values → Result Bytes
pack_values fl types v = do
  type_obj ← find_type types v.type
  host_part ← pack_string type_host v.host
  plugin_part ← pack_string type_plugin v.plugin
  plugin_instance_part ← pack_string type_plugin_instance v.plugin_instance
  type_part ← pack_string type_type (some type_obj.name)
  interval_part ← pack_integer type_interval v.interval
  type_instance_part ← pack_string type_type_instance v.type_instance
  time_part ← pack_time v.time
  xs ← items v.values
  payload ← encode_values fl type_obj xs
  ok (
      host_part
      ++ (time_part
          ++ (plugin_part
              ++ (plugin_instance_part
                  ++ (type_part ++ (interval_part ++ (type_instance_part ++ payload)))))))
