-- ===== src/Stream/Translator.antt =====
-- The class `StreamTranslator` of stream.py: an object with the values of an internal type becomes
-- one object of collectd's type `count` or `derive` for each value.
pub mod Pieces
use sqlalchemy_collectd.Base.{
  ℕ, Option, none, some, List, [], ◌∷◌, map, nat_eq, list_eq, Result, ok, raise, type_error,
  key_error, ◌>>=◌,
}
use mathlib.Core.List.{zip}
use sqlalchemy_collectd.Base.Dict.{Dict, lookup, insert}
use sqlalchemy_collectd.Base.Generator.{Generator, done, fail, yield, with_result}
use sqlalchemy_collectd.Number.{Num}
use sqlalchemy_collectd.Protocol.Bytes.{Text}
use sqlalchemy_collectd.Protocol.Types
use sqlalchemy_collectd.Protocol.Types.{ValueType, counter, gauge, derive, absolute, CollectdType}
use sqlalchemy_collectd.Protocol.Values.{Values, build, items}
use sqlalchemy_collectd.CollectdTypes.{text}

-- `external_type_to_internal` is written by the constructor and never read; it is left out.
pub record StreamTranslator : Type 0 where
  pub type_by_name : Dict Text CollectdType
  pub external_types : Dict Text CollectdType

-- `_protocol_type_string_names[t]`
abbrev pub string_name : ValueType → Result Text
string_name counter = raise key_error
string_name gauge = ok (text "count")
string_name derive = ok (text "derive")
string_name absolute = raise key_error

-- the inner loop of the constructor, over the fields of one type
unfoldable pub add_fields : List (Text × ValueType) → StreamTranslator → Result StreamTranslator
add_fields [] s = ok s
add_fields ((name, t) ∷ fields) s = do
  external_type ← Types.init name ((text "value", t) ∷ [])
  add_fields fields (record {
    type_by_name = insert name external_type s.type_by_name;
    external_types = insert name external_type s.external_types;
  })

unfoldable pub add_types : List CollectdType → StreamTranslator → Result StreamTranslator
unfolding add_fields
add_types [] s = ok s
add_types (t ∷ ts) s = do s' ← add_fields (zip t.field_names t.value_types) s; add_types ts s'

names_of : List CollectdType → Dict Text CollectdType → Dict Text CollectdType
names_of [] d = d
names_of (t ∷ ts) d = names_of ts (insert t.name t d)

unfoldable pub new : List CollectdType → Result StreamTranslator
unfolding add_types names_of
new types = add_types types (record { type_by_name = names_of types []; external_types = [] })

abbrev pub found : Option CollectdType → Result CollectdType
found none = raise key_error
found (some t) = ok t

-- `self._type_by_name[values_obj.type]`
abbrev pub internal_type : StreamTranslator → Option Text → Result CollectdType
internal_type s none = raise key_error
internal_type s (some name) = found (lookup name s.type_by_name)

-- one turn of the loop
unfoldable pub piece : StreamTranslator → Values → Text → ValueType → Num → Result Values
piece s v name t x = do
  external_type ← found (lookup name s.external_types)
  type ← string_name t
  ok (
      build v λ d. record d {
        type_instance = some external_type.name;
        type = some type;
        values = some (x ∷ []);
      })

-- the loop over `zip(names, types, values)`
unfoldable pub pieces :
    StreamTranslator → Values → List Text → List ValueType → List Num → Generator Values
unfolding piece
pieces s v (n ∷ ns) (t ∷ ts) (x ∷ xs) =
    let rest = pieces s v ns ts xs in with_result (piece s v n t x) (λ w. yield w rest)
pieces s v [] ts xs = done
pieces s v (n ∷ ns) [] xs = done
pieces s v (n ∷ ns) (t ∷ ts) [] = done

unfoldable pub break_into_individual_values : StreamTranslator → Values → Generator Values
break_into_individual_values s v =
    with_result (internal_type s v.type)
      (λ t. with_result (items v.values) (λ xs. pieces s v t.field_names t.value_types xs))
