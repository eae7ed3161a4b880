-- ===== src/Protocol/Types.antt =====
-- The class `Type` of protocol.py: a collectd type, its fields and the template of its message part.
use sqlalchemy_collectd.Base.{
  ℕ, suc, ◌+◌, ◌*◌, ◌^◌, ◌≡◌, refl, Option, none, some, List, [], ◌∷◌, ◌++◌, map, nat_beq,
  if◌then◌else◌, ◌==◌, nat_eq, list_eq, length, ltb, pos, negsuc, Result, ok, raise, struct_error,
  value_error, guard, ◌>>=◌, ◌>>◌, >>=-eq-ok, ok-injective, ap, sym,
}
use sqlalchemy_collectd.Number.{Num, int, float, Floats}
use sqlalchemy_collectd.Protocol.Bytes.{
  Bytes, Text, little, big, pack_header, pack_short, pack_long,
}

-- VALUE_COUNTER, VALUE_GAUGE, VALUE_DERIVE, VALUE_ABSOLUTE
pub data ValueType : Type 0 where
  counter gauge derive absolute : ValueType

abbrev pub code_of : ValueType → ℕ
code_of counter = 0
code_of gauge = 1
code_of derive = 2
code_of absolute = 3

-- the keys of `_value_formats`
unfoldable pub value_type_of : ℕ → Option ValueType
value_type_of c =
    if nat_beq c 0
    then some counter
    else if nat_beq c 1
    then some gauge
    else if nat_beq c 2
    then some derive
    else if nat_beq c 3
    then some absolute
    else none

pub value_type_of-code_of : (t : ValueType) → value_type_of (code_of t) ≡ some t
unfolding value_type_of
value_type_of-code_of counter = refl
value_type_of-code_of gauge = refl
value_type_of-code_of derive = refl
value_type_of-code_of absolute = refl

-- TYPE_HOST to TYPE_INTERVAL
abbrev pub type_host : ℕ
type_host = 0

abbrev pub type_time : ℕ
type_time = 1

abbrev pub type_plugin : ℕ
type_plugin = 2

abbrev pub type_plugin_instance : ℕ
type_plugin_instance = 3

abbrev pub type_type : ℕ
type_type = 4

abbrev pub type_type_instance : ℕ
type_type_instance = 5

abbrev pub type_values : ℕ
type_values = 6

abbrev pub type_interval : ℕ
type_interval = 7

-- `_value_formats` holds a format for each entry of `value_types`, and is not stored again.
pub record CollectdType : Type 0 where
  pub name : Text
  pub field_names : List Text
  pub value_types : List ValueType
  pub message_template : Bytes

unfoldable pub init : Text → List (Text × ValueType) → Result CollectdType
init name db_template = do
  part_header ← pack_header type_values (6 + 9 * length db_template)
  count ← pack_short (length db_template)
  ok (record {
    name = name;
    field_names = map (λ e. e.0) db_template;
    value_types = map (λ e. e.1) db_template;
    message_template = part_header ++ (count ++ map (λ e. code_of e.1) db_template);
  })

-- `names.index(name)`
unfoldable pub index_from : ℕ → Text → List Text → Result ℕ
index_from i name [] = raise value_error
index_from i name (n ∷ names) = if n == name then ok i else index_from (suc i) name names

unfoldable pub get_stat_index : CollectdType → Text → Result ℕ
unfolding index_from
get_stat_index t name = index_from 0 name t.field_names

module _ (fl : Floats) where
  -- `format_.pack(dsvalue)` for the format of each value type
  unfoldable pub pack_unsigned : Num → Result Bytes
  pack_unsigned (int (pos n)) = do guard (ltb n (2 ^ 64)) struct_error; ok (big 8 n)
  pack_unsigned (int (negsuc n)) = raise struct_error
  pack_unsigned (float b) = raise struct_error

  -- a float, or an int that a double can hold
  unfoldable pub pack_double : Num → Result Bytes
  pack_double (float b) = ok (little 8 b)
  pack_double (int z) = elim (fl.of_int z) [ none ↦ raise struct_error | some b ↦ ok (little 8 b) ]

  unfoldable pub pack_value : ValueType → Num → Result Bytes
  unfolding pack_unsigned pack_double
  pack_value counter x = pack_unsigned x
  pack_value gauge x = pack_double x
  pack_value derive (int z) = pack_long z
  pack_value derive (float b) = raise struct_error
  pack_value absolute x = pack_unsigned x

  -- the loop of `_encode_values`
  unfoldable pub encode_loop : Bytes → List ValueType → List Num → Result Bytes
  encode_loop msg (t ∷ ts) (x ∷ xs) = do part ← pack_value t x; encode_loop (msg ++ part) ts xs
  encode_loop msg [] xs = ok msg
  encode_loop msg (t ∷ ts) [] = ok msg

  unfoldable pub encode_values : CollectdType → List Num → Result Bytes
  encode_values t xs = encode_loop t.message_template t.value_types xs

pub init-name :
    (name : Text) (db : List (Text × ValueType)) {t : CollectdType}
    → init name db ≡ ok t
    → t.name ≡ name
unfolding init
init-name name db h =
    let (_, _, more) = >>=-eq-ok (pack_header type_values (6 + 9 * length db)) _ h in
    let (_, _, done) = >>=-eq-ok (pack_short (length db)) _ more in
    ap (λ t. t.name) (sym (ok-injective done))
