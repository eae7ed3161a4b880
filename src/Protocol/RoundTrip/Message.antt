-- ===== src/Protocol/RoundTrip/Message.antt =====
-- A whole message: what `pack_values` writes, `unpack_bytes` reads.
use sqlalchemy_collectd.Base.{
  ℕ, suc, ◌+◌, ◌*◌, ◌-◌, ◌≤◌, ◌≡◌, refl, sym, ◌∙◌, Option, none, some, List, [], ◌++◌, length,
  length-append, All, nat_eq, list_eq, ℤ, Result, ok, >>=-eq-ok, ok-injective, arith,
}
use mathlib.Core.Path.{subst, subst₂}
use mathlib.Core.List.{append-nil}
use sqlalchemy_collectd.Base.Dict.{Dict, lookup}
use sqlalchemy_collectd.Number.{Num, IsNum, Floats}
use sqlalchemy_collectd.Protocol.Bytes.{Bytes, Text, unpack_long}
use sqlalchemy_collectd.Protocol.Types
use sqlalchemy_collectd.Protocol.Types.{
  CollectdType, ValueType, type_host, type_time, type_plugin, type_plugin_instance, type_type,
  type_type_instance, type_values, type_interval, encode_values,
}
use sqlalchemy_collectd.Protocol.Values.{Values, int_of, of_seconds, items, init}
use sqlalchemy_collectd.Protocol.Packer.{
  or_empty, pack_string, pack_integer, pack_time, find_type, pack_values,
}
use sqlalchemy_collectd.Protocol.Unpacker.{
  Parts, no_parts, header_size, receive, unpack_values, unpack_string, unpack_loop, unpack_packet,
  to_value, checked_value, unpack_bytes,
}
use sqlalchemy_collectd.Protocol.RoundTrip.Parts.{
  IsPart, IsPart-pack_string, IsPart-pack_integer, IsPart-length, unpack_string-part,
  unpack_long-part, unpack_loop-part,
}
use sqlalchemy_collectd.Protocol.RoundTrip.Data.{
  received_all, IsTemplate, init-IsTemplate, IsPart-encode_values,
}

-- The object that arrives: no text is `None`, the time is a whole number of seconds, and gauges are
-- floats.
abbrev pub as_received : Floats → CollectdType → ℤ → List Num → Values → Values
as_received fl t time xs v = record {
  type = some t.name;
  type_instance = some (or_empty v.type_instance);
  plugin = some (or_empty v.plugin);
  plugin_instance = some (or_empty v.plugin_instance);
  host = some (or_empty v.host);
  time = some (of_seconds (int_of time));
  interval = v.interval;
  values = some (received_all fl t.value_types xs);
}

-- The parts of a message in their order, with the values as they will be read.
record HasParts (v : Values) (name : Text) (time : ℤ) (size : ℕ) (xs : List Num) (msg : Bytes)
    : Type 0 where
  host_part : Bytes
  time_part : Bytes
  plugin_part : Bytes
  plugin_instance_part : Bytes
  type_part : Bytes
  interval_part : Bytes
  type_instance_part : Bytes
  payload : Bytes
  shape :
      msg
      ≡ host_part
        ++ (time_part
            ++ (plugin_part
                ++ (plugin_instance_part
                    ++ (type_part ++ (interval_part ++ (type_instance_part ++ payload))))))
  host_packed : pack_string type_host v.host ≡ ok host_part
  time_packed : pack_integer type_time (int_of time) ≡ ok time_part
  plugin_packed : pack_string type_plugin v.plugin ≡ ok plugin_part
  plugin_instance_packed :
      pack_string type_plugin_instance v.plugin_instance ≡ ok plugin_instance_part
  type_packed : pack_string type_type (some name) ≡ ok type_part
  interval_packed : pack_integer type_interval v.interval ≡ ok interval_part
  type_instance_packed : pack_string type_type_instance v.type_instance ≡ ok type_instance_part
  body : Bytes
  is_part : IsPart type_values size payload body
  read : (rest : Bytes) → unpack_values (payload ++ rest) ≡ ok xs

find_type-eq-ok : {a b : CollectdType} {r : Result CollectdType} → r ≡ ok a → r ≡ ok b → b ≡ a
find_type-eq-ok p q = cc

items-eq-ok : (o : Option (List Num)) {xs ys : List Num} → o ≡ some xs → items o ≡ ok ys → ys ≡ xs
unfolding items
items-eq-ok none p q = cc
items-eq-ok (some zs) p q = cc

pack_time-eq-ok :
    (o : Option ℤ) {time : ℤ} {part : Bytes}
    → o ≡ some time
    → pack_time o ≡ ok part
    → pack_integer type_time (int_of time) ≡ ok part
unfolding pack_time
pack_time-eq-ok none p q = cc
pack_time-eq-ok (some t) p q = cc

module _ (fl : Floats) (types : Dict Text CollectdType) (v : Values) (t : CollectdType) (time : ℤ)
    (xs : List Num) where
  -- the last two fields, at the type and the values that the earlier steps found
  encode_values-read :
      (t' : CollectdType) (ys : List Num) (payload : Bytes)
      → t' ≡ t
      → ys ≡ xs
      → IsTemplate t
      → All IsNum xs
      → length t.value_types ≤ length xs
      → encode_values fl t' ys ≡ ok payload
      → (body : Bytes) × IsPart type_values (6 + 9 * length t.value_types) payload body
        × ((rest : Bytes) → unpack_values (payload ++ rest) ≡ ok (received_all fl t.value_types xs))
  encode_values-read t' ys payload e f tmpl is n h =
      IsPart-encode_values fl t xs tmpl n is
        (subst₂ (λ a b. encode_values fl a b ≡ ok payload) e f h)

  HasParts-pack_values :
      {msg : Bytes}
      → find_type types v.type ≡ ok t
      → IsTemplate t
      → v.time ≡ some time
      → v.values ≡ some xs
      → All IsNum xs
      → length t.value_types ≤ length xs
      → pack_values fl types v ≡ ok msg
      → HasParts v t.name time (6 + 9 * length t.value_types) (received_all fl t.value_types xs) msg
  unfolding pack_values
  HasParts-pack_values {msg} found tmpl at vals is n h =
      let (t', f0, h1) = >>=-eq-ok (find_type types v.type) _ h in
      let (p1, f1, h2) = >>=-eq-ok (pack_string type_host v.host) _ h1 in
      let (p2, f2, h3) = >>=-eq-ok (pack_string type_plugin v.plugin) _ h2 in
      let (p3, f3, h4) = >>=-eq-ok (pack_string type_plugin_instance v.plugin_instance) _ h3 in
      let (p4, f4, h5) = >>=-eq-ok (pack_string type_type (some t'.name)) _ h4 in
      let (p5, f5, h6) = >>=-eq-ok (pack_integer type_interval v.interval) _ h5 in
      let (p6, f6, h7) = >>=-eq-ok (pack_string type_type_instance v.type_instance) _ h6 in
      let (p7, f7, h8) = >>=-eq-ok (pack_time v.time) _ h7 in
      let (ys, f8, h9) = >>=-eq-ok (items v.values) _ h8 in
      let (payload, f9, done) = >>=-eq-ok (encode_values fl t' ys) _ h9 in
      let same : t' ≡ t = find_type-eq-ok found f0 in
      let (body, is_part, read) =
        encode_values-read t' ys payload same (items-eq-ok v.values vals f8) tmpl is n f9 in
      record {
        host_part = p1;
        time_part = p7;
        plugin_part = p2;
        plugin_instance_part = p3;
        type_part = p4;
        interval_part = p5;
        type_instance_part = p6;
        payload = payload;
        shape = sym (ok-injective done);
        host_packed = f1;
        time_packed = pack_time-eq-ok v.time at f7;
        plugin_packed = f2;
        plugin_instance_packed = f3;
        type_packed = subst (λ a. pack_string type_type (some a.name) ≡ ok p4) same f4;
        interval_packed = f5;
        type_instance_packed = f6;
        body = body;
        is_part = is_part;
        read = read;
      }

-- A text and an integer, as their receivers take them.
text_read :
    (kind : ℕ) (value : Option Text) {part : Bytes} (rest : Bytes)
    → pack_string kind value ≡ ok part
    → unpack_string (5 + length (or_empty value)) (part ++ rest) ≡ ok (or_empty value)
text_read kind value rest h =
    let (is_part, is) = IsPart-pack_string kind value h in
    unpack_string-part kind (or_empty value) rest is_part is

integer_read :
    (kind : ℕ) (z : ℤ) {part : Bytes} (rest : Bytes)
    → pack_integer kind z ≡ ok part
    → unpack_long (part ++ rest) header_size ≡ ok z
integer_read kind z rest h =
    let (is_part, fits) = IsPart-pack_integer kind z h in unpack_long-part kind z rest is_part fits

-- A round over a text, and over an integer.
text_round :
    (fuel kind : ℕ) (value : Option Text) {part : Bytes} (rest : Bytes) (r : Parts) {r' : Parts}
    → pack_string kind value ≡ ok part
    → (unpack_string (5 + length (or_empty value)) (part ++ rest) ≡ ok (or_empty value)
        → receive kind (5 + length (or_empty value)) (part ++ rest) r ≡ ok r')
    → unpack_loop (suc fuel) (part ++ rest) r ≡ unpack_loop fuel rest r'
text_round fuel kind value rest r h accepts =
    unpack_loop-part fuel rest r (IsPart-pack_string kind value h).0
      (accepts (text_read kind value rest h))

integer_round :
    (fuel kind : ℕ) (z : ℤ) {part : Bytes} (rest : Bytes) (r : Parts) {r' : Parts}
    → pack_integer kind z ≡ ok part
    → (unpack_long (part ++ rest) header_size ≡ ok z → receive kind 12 (part ++ rest) r ≡ ok r')
    → unpack_loop (suc fuel) (part ++ rest) r ≡ unpack_loop fuel rest r'
integer_round fuel kind z rest r h accepts =
    unpack_loop-part fuel rest r (IsPart-pack_integer kind z h).0
      (accepts (integer_read kind z rest h))

-- Eight rounds read the eight parts.
unpack_loop-HasParts :
    {v : Values} {name : Text} {time : ℤ} {size : ℕ} {xs : List Num} {msg : Bytes} (fuel : ℕ)
    → HasParts v name time size xs msg
    → unpack_loop (suc (suc (suc (suc (suc (suc (suc (suc fuel)))))))) msg no_parts
      ≡ ok (record {
        host = some (or_empty v.host);
        time = some (int_of time);
        plugin = some (or_empty v.plugin);
        plugin_instance = some (or_empty v.plugin_instance);
        type = some name;
        type_instance = some (or_empty v.type_instance);
        values = some xs;
        interval = some v.interval;
      })
unpack_loop-HasParts {v} {name} {time} {xs = xs} fuel p =
    let s7 : Bytes = p.payload ++ [] in
    let s6 : Bytes = p.type_instance_part ++ s7 in
    let s5 : Bytes = p.interval_part ++ s6 in
    let s4 : Bytes = p.type_part ++ s5 in
    let s3 : Bytes = p.plugin_instance_part ++ s4 in
    let s2 : Bytes = p.plugin_part ++ s3 in
    let s1 : Bytes = p.time_part ++ s2 in
    let r1 : Parts = record no_parts { host = some (or_empty v.host) } in
    let r2 : Parts = record r1 { time = some (int_of time) } in
    let r3 : Parts = record r2 { plugin = some (or_empty v.plugin) } in
    let r4 : Parts = record r3 { plugin_instance = some (or_empty v.plugin_instance) } in
    let r5 : Parts = record r4 { type = some name } in
    let r6 : Parts = record r5 { interval = some v.interval } in
    let r7 : Parts = record r6 { type_instance = some (or_empty v.type_instance) } in
    let r8 : Parts = record r7 { values = some xs } in
    rw (p.shape, ← append-nil p.payload)
      (text_round _ type_host v.host s1 no_parts {r' = r1} p.host_packed
          (λ e. unfold receive in rw e)
        ∙ integer_round _ type_time (int_of time) s2 r1 {r' = r2} p.time_packed
            (λ e. unfold receive in rw e)
        ∙ text_round _ type_plugin v.plugin s3 r2 {r' = r3} p.plugin_packed
            (λ e. unfold receive in rw e)
        ∙ text_round _ type_plugin_instance v.plugin_instance s4 r3 {r' = r4}
            p.plugin_instance_packed (λ e. unfold receive in rw e)
        ∙ text_round _ type_type (some name) s5 r4 {r' = r5} p.type_packed
            (λ e. unfold receive in rw e)
        ∙ integer_round _ type_interval v.interval s6 r5 {r' = r6} p.interval_packed
            (λ e. unfold receive in rw e)
        ∙ text_round _ type_type_instance v.type_instance s7 r6 {r' = r7} p.type_instance_packed
            (λ e. unfold receive in rw e)
        ∙ unpack_loop-part fuel [] r7 {r' = r8} p.is_part (unfold receive in rw (p.read []))
        ∙ (unfold unpack_loop in refl))

-- the parts take more than eight bytes, so the fuel suffices
length-HasParts :
    {v : Values} {name : Text} {time : ℤ} {size : ℕ} {xs : List Num} {msg : Bytes}
    → HasParts v name time size xs msg
    → 8 ≤ length msg
length-HasParts {v} {name} {time} p = rw p.shape (
    omega (
      arith,
      length-append p.host_part (
          p.time_part
          ++ (p.plugin_part
              ++ (p.plugin_instance_part
                  ++ (p.type_part ++ (p.interval_part ++ (p.type_instance_part ++ p.payload)))))),
      length-append p.time_part (
          p.plugin_part
          ++ (p.plugin_instance_part
              ++ (p.type_part ++ (p.interval_part ++ (p.type_instance_part ++ p.payload))))),
      IsPart-length (IsPart-pack_string type_host v.host p.host_packed).0 [],
      IsPart-length (IsPart-pack_integer type_time (int_of time) p.time_packed).0 [],
    ))

module _ (fl : Floats) (types : Dict Text CollectdType) (v : Values) (t : CollectdType) (time : ℤ)
    (xs : List Num) where
  unpack_packet-pack_values :
      {msg : Bytes}
      → HasParts v t.name time (6 + 9 * length t.value_types) (received_all fl t.value_types xs) msg
      → unpack_packet msg
        ≡ ok (record {
          host = some (or_empty v.host);
          time = some (int_of time);
          plugin = some (or_empty v.plugin);
          plugin_instance = some (or_empty v.plugin_instance);
          type = some t.name;
          type_instance = some (or_empty v.type_instance);
          values = some (received_all fl t.value_types xs);
          interval = some v.interval;
        })
  unfolding unpack_packet
  unpack_packet-pack_values {msg} p =
      rw (enough (length msg) (length-HasParts p)) (unpack_loop-HasParts (length msg - 8) p)
    where
      enough : (n : ℕ) → 8 ≤ n → n ≡ suc (suc (suc (suc (suc (suc (suc (suc (n - 8))))))))
      enough n h = omega arith

  -- For a type that `Type(...)` built, a type of that name known to the unpacker, and an object of the
  -- type with a time and at least as many values as the type has: if `pack_values` returns bytes,
  -- `unpack_bytes` returns, with no error, an object with the same texts, `None` texts empty, the same
  -- interval, the time cut to whole seconds, and as many of the values as the type has, gauges as
  -- floats.
  pub unpack_bytes-pack_values :
      (db : List (Text × ValueType)) (known : Dict Text CollectdType) (t' : CollectdType)
      {msg : Bytes}
      → Types.init t.name db ≡ ok t
      → find_type types v.type ≡ ok t
      → lookup t.name known ≡ some t'
      → v.time ≡ some time
      → v.values ≡ some xs
      → All IsNum xs
      → length t.value_types ≤ length xs
      → pack_values fl types v ≡ ok msg
      → unpack_bytes known msg ≡ ok (some (as_received fl t time xs v))
  unfolding unpack_bytes to_value init
  unpack_bytes-pack_values db known t' built found is_known at vals is n h =
      rw
        (unpack_packet-pack_values (
          HasParts-pack_values fl types v t time xs found (init-IsTemplate t.name db built) at vals
            is n h))
        (rw (is_known, checked_value))
