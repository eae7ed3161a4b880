-- ===== src/Protocol/RoundTrip/Accepted.antt =====
-- Which objects `pack_values` accepts.
use sqlalchemy_collectd.Base.{
  ℕ, ◌+◌, ◌^◌, ◌<◌, ◌≡◌, refl, true, Option, none, some, List, [], ◌∷◌, ◌++◌, length, nat_eq,
  list_eq, ℤ, pos, negsuc, Result, ok, ◌>>=◌, arith,
}
use sqlalchemy_collectd.Base.Dict.{Dict}
use sqlalchemy_collectd.Number.{Num, int, float, Floats}
use sqlalchemy_collectd.Protocol.Bytes.{
  Bytes, Text, little, big, pattern64, fits_signed64, pack_header, pack_long, is_ascii, ascii,
}
use sqlalchemy_collectd.Protocol.Types.{
  ValueType, CollectdType, type_host, type_time, type_plugin, type_plugin_instance, type_type,
  type_type_instance, type_interval, pack_value, pack_unsigned, pack_double, encode_loop,
  encode_values, counter, gauge, derive, absolute,
}
use sqlalchemy_collectd.Protocol.Values.{Values, int_of, items}
use sqlalchemy_collectd.Protocol.Packer.{
  or_empty, pack_string, pack_integer, pack_time, find_type, pack_values,
}

-- A text that fits a part: ASCII, and its length with the header in 16 bits.
abbrev pub IsPackable : Text → Type 0
IsPackable s = (is_ascii s ≡ true) × (5 + length s < 2 ^ 16)

abbrev Packs : Result Bytes → Type 0
Packs r = (bs : Bytes) × (r ≡ ok bs)

pack_string-Packs :
    (kind : ℕ) (s : Option Text)
    → kind < 2 ^ 16
    → IsPackable (or_empty s)
    → Packs (pack_string kind s)
unfolding pack_string pack_header ascii
pack_string-Packs kind s hk h =
    ((big 2 kind ++ big 2 (5 + length (or_empty s))) ++ (or_empty s ++ (0 ∷ [])), ground arith)

pack_integer-Packs :
    (kind : ℕ) (z : ℤ) → kind < 2 ^ 16 → fits_signed64 z ≡ true → Packs (pack_integer kind z)
unfolding pack_integer pack_header pack_long
pack_integer-Packs kind z hk h = ((big 2 kind ++ big 2 12) ++ big 8 (pattern64 z), ground arith)

pack_time-Packs :
    (t : Option ℤ) {time : ℤ}
    → t ≡ some time
    → fits_signed64 (int_of time) ≡ true
    → Packs (pack_time t)
unfolding pack_time
pack_time-Packs none e h = cc
pack_time-Packs (some t) {time} e h =
    pack_integer-Packs type_time (int_of t) (omega arith) (cc (some-injective' t time e, h))
  where
    some-injective' : (a b : ℤ) → some a ≡ some b → a ≡ b
    some-injective' a b e = cc

module _ (fl : Floats) where
  -- A value that the format of its type holds: an unsigned 64-bit integer for a counter and an
  -- absolute value, a signed one for a derived value, and for a gauge a float or an integer that a
  -- double can hold.
  abbrev pub IsHeld : ValueType → Num → Type 0
  IsHeld counter (int (pos n)) = n < 2 ^ 64
  IsHeld counter (int (negsuc n)) = ⊥
  IsHeld counter (float b) = ⊥
  IsHeld gauge (int z) = (b : ℕ) × (fl.of_int z ≡ some b)
  IsHeld gauge (float b) = Unit {0}
  IsHeld derive (int z) = fits_signed64 z ≡ true
  IsHeld derive (float b) = ⊥
  IsHeld absolute (int (pos n)) = n < 2 ^ 64
  IsHeld absolute (int (negsuc n)) = ⊥
  IsHeld absolute (float b) = ⊥

  -- Each value is held by the format of its type.
  abbrev pub ArePackable : List ValueType → List Num → Type 0
  ArePackable (t ∷ ts) (x ∷ xs) = IsHeld t x × ArePackable ts xs
  ArePackable [] xs = Unit {0}
  ArePackable (t ∷ ts) [] = Unit {0}

  pack_value-Packs : (t : ValueType) (x : Num) → IsHeld t x → Packs (pack_value fl t x)
  unfolding pack_value pack_unsigned pack_double pack_long
  pack_value-Packs counter (int (pos n)) h = (big 8 n, ground (arith, h))
  pack_value-Packs counter (int (negsuc n)) h = absurd h
  pack_value-Packs counter (float b) h = absurd h
  pack_value-Packs gauge (int z) (b, e) = (little 8 b, converted e)
    where
      converted : fl.of_int z ≡ some b → pack_value fl gauge (int z) ≡ ok (little 8 b)
      converted e = ground arith
  pack_value-Packs gauge (float b) h = (little 8 b, refl)
  pack_value-Packs derive (int z) h = (big 8 (pattern64 z), ground (arith, h))
  pack_value-Packs derive (float b) h = absurd h
  pack_value-Packs absolute (int (pos n)) h = (big 8 n, ground (arith, h))
  pack_value-Packs absolute (int (negsuc n)) h = absurd h
  pack_value-Packs absolute (float b) h = absurd h

  encode_loop-Packs :
      (msg : Bytes) (ts : List ValueType) (xs : List Num)
      → ArePackable ts xs
      → Packs (encode_loop fl msg ts xs)
  unfolding encode_loop
  encode_loop-Packs msg [] xs h = (msg, refl)
  encode_loop-Packs msg (t ∷ ts) [] h = (msg, refl)
  encode_loop-Packs msg (t ∷ ts) (x ∷ xs) (held, h) =
      let (p, packed) = pack_value-Packs t x held in
      let (out, done) = encode_loop-Packs (msg ++ p) ts xs h in (out, rw packed done)

  -- a count as a gauge, and as a derived value
  pub count-gauge : (n : ℕ) → n < 2 ^ 53 → IsHeld gauge (int (pos n))
  count-gauge n h = fl.of_int_small n h

  pub count-derive : (n : ℕ) → n < 2 ^ 53 → IsHeld derive (int (pos n))
  count-derive n h = ground (arith, h)

  -- `pack_values` accepts an object of a known type if its texts and the name of the type are ASCII
  -- and fit a part, its interval and its time in whole seconds, shifted, are signed 64-bit integers,
  -- and each value is held by the format of its type: an unsigned 64-bit integer by a counter and an
  -- absolute value, a signed one by a derived value, a float or an integer that a double can hold by
  -- a gauge.
  pub pack_values-Packs :
      (types : Dict Text CollectdType) (v : Values) (t : CollectdType) (time : ℤ) (xs : List Num)
      → find_type types v.type ≡ ok t
      → IsPackable t.name
      → IsPackable (or_empty v.host)
      → IsPackable (or_empty v.plugin)
      → IsPackable (or_empty v.plugin_instance)
      → IsPackable (or_empty v.type_instance)
      → fits_signed64 v.interval ≡ true
      → v.time ≡ some time
      → fits_signed64 (int_of time) ≡ true
      → v.values ≡ some xs
      → ArePackable t.value_types xs
      → Packs (pack_values fl types v)
  unfolding pack_values encode_values
  pack_values-Packs types v t time xs found name host plugin inst ti interval at fits vals
        packable =
      let (p1, e1) = pack_string-Packs type_host v.host (omega arith) host in
      let (p2, e2) = pack_string-Packs type_plugin v.plugin (omega arith) plugin in
      let (p3, e3) = pack_string-Packs type_plugin_instance v.plugin_instance (omega arith) inst in
      let (p4, e4) = pack_string-Packs type_type (some t.name) (omega arith) name in
      let (p5, e5) = pack_integer-Packs type_interval v.interval (omega arith) interval in
      let (p6, e6) = pack_string-Packs type_type_instance v.type_instance (omega arith) ti in
      let (p7, e7) = pack_time-Packs v.time at fits in
      let (p8, e8) = encode_loop-Packs t.message_template t.value_types xs packable in
      (
        p1 ++ (p7 ++ (p2 ++ (p3 ++ (p4 ++ (p5 ++ (p6 ++ p8)))))),
        simp (found, e1, e2, e3, e4, e5, e6, e7) (listed _ v.values vals p8 e8),
      )
    where
      listed :
          (f : Bytes → Bytes) (o : Option (List Num))
          → o ≡ some xs
          → (p : Bytes) → encode_loop fl t.message_template t.value_types xs ≡ ok p
          → (do
            ys ← items o
            payload ← encode_loop fl t.message_template t.value_types ys
            ok (f payload))
            ≡ ok (f p)
      listed f o e p h = rw e (unfold items in rw h refl)
