-- ===== src/Protocol/RoundTrip/Data.antt =====
-- The part with the data values: each value is packed by the format of its type and read back.
use sqlalchemy_collectd.Base.{
  ℕ, ◌+◌, ◌*◌, ◌^◌, ◌<◌, ◌≤◌, ◌≡◌, refl, sym, ap, ◌∙◌, none, some, List, [], ◌∷◌, ◌++◌, map, length,
  length-append, length-map, All, pos, negsuc, Result, ok, raise, struct_error, ok-injective,
  Option, ◌>>=◌, >>=-eq-ok, arith,
}
use mathlib.Core.List.{append_assoc, append-nil}
use sqlalchemy_collectd.Number.{Num, int, float, IsNum, Floats}
use sqlalchemy_collectd.Protocol.Bytes.{
  Bytes, Text, little, big, of_big, pattern64, pack_header, pack_short, bytes_at, unpack_char,
  unpack_short,
}
use sqlalchemy_collectd.Protocol.Bytes.Laws.{
  length-little, of_little-little, length-big, of_big-big, bytes_at-append, unpack_short-big,
  unpack_char_self, unpack_long-big,
}
use sqlalchemy_collectd.Protocol.Types.{
  ValueType, counter, gauge, derive, absolute, code_of, value_type_of-code_of, CollectdType, init,
  type_values, pack_unsigned, pack_double, pack_value, encode_loop, encode_values,
}
use sqlalchemy_collectd.Protocol.Unpacker.{
  unpack_value, find_format, unpack_values_loop, unpack_values, types_start,
}
use sqlalchemy_collectd.Protocol.RoundTrip.Parts.{
  IsPart, length-header, pack_short-eq-ok, pack_header-eq-ok, pack_long-eq-ok,
}

-- The template of a type: the header, the number of values and their codes.
pub record IsTemplate (t : CollectdType) : Type 0 where
  pub shape :
      t.message_template
      ≡ (big 2 type_values ++ big 2 (6 + 9 * length t.value_types))
        ++ (big 2 (length t.value_types) ++ map code_of t.value_types)
  pub size_fits : 6 + 9 * length t.value_types < 2 ^ 16

pub init-IsTemplate :
    (name : Text) (db : List (Text × ValueType)) {t : CollectdType}
    → init name db ≡ ok t
    → IsTemplate t
unfolding init
init-IsTemplate name db {t} h =
    let (head, packed, more) = >>=-eq-ok (pack_header type_values (6 + 9 * length db)) _ h in
    let (count, counted, done) = >>=-eq-ok (pack_short (length db)) _ more in
    let (head_shape, kind_fits, size_fits) = pack_header-eq-ok type_values _ packed in
    let (count_shape, count_fits) = pack_short-eq-ok (length db) counted in
    let made : t ≡ record {
      name = name;
      field_names = map (λ e. e.0) db;
      value_types = map (λ e. e.1) db;
      message_template = head ++ (count ++ map (λ e. code_of e.1) db);
    } =
      cc in
    rw made (record {
      shape = simp (length-map, map_codes, head_shape, count_shape);
      size_fits = rw length-map size_fits;
    })
  where
    map_codes :
        (l : List (Text × ValueType)) → map code_of (map (λ e. e.1) l) ≡ map (λ e. code_of e.1) l
    map_codes [] = refl
    map_codes (e ∷ l) = ap (◌∷◌ (code_of e.1)) (map_codes l)

module _ (fl : Floats) where
  -- What the receiver holds for a value that was sent: a gauge arrives as a float.
  abbrev pub received : ValueType → Num → Num
  received gauge (int z) = elim (fl.of_int z) [ none ↦ int z | some b ↦ float b ]
  received gauge (float b) = float b
  received counter x = x
  received derive x = x
  received absolute x = x

  abbrev pub received_all : List ValueType → List Num → List Num
  received_all (t ∷ ts) (x ∷ xs) = received t x ∷ received_all ts xs
  received_all [] xs = []
  received_all (t ∷ ts) [] = []

  unpack_unsigned-pack :
      (x : Num) {bs : Bytes} (at : ℕ) (front rest : Bytes)
      → pack_unsigned fl x ≡ ok bs
      → length front ≡ at
      → (length bs ≡ 8)
        × ((do found ← bytes_at 8 (front ++ (bs ++ rest)) at; ok (int (pos (of_big found)))) ≡ ok x)
  unfolding pack_unsigned
  unpack_unsigned-pack (int (pos n)) {bs} at front rest h hf =
      let fits : n < 256 ^ 8 = ground arith in
      let same : bs ≡ big 8 n = ground arith in
      rw same (
        length-big 8 n,
        rw (bytes_at-append 8 at front (big 8 n) rest hf (length-big 8 n), of_big-big 8 n fits),
      )
  unpack_unsigned-pack (int (negsuc n)) at front rest h hf = cc
  unpack_unsigned-pack (float b) at front rest h hf = cc

  pack_double-received :
      (x : Num) {bs : Bytes}
      → IsNum x
      → pack_double fl x ≡ ok bs
      → (b : ℕ) × (bs ≡ little 8 b) × (received gauge x ≡ float b) × (b < 2 ^ 64)
  unfolding pack_double
  pack_double-received (float b) is h = (b, sym (ok-injective h), refl, is)
  pack_double-received (int z) {bs} is h = of_int (fl.of_int z) refl h
    where
      of_int :
          (o : Option ℕ)
          → fl.of_int z ≡ o
          → elim o as (λ _. Result Bytes) [ none ↦ raise struct_error | some b ↦ ok (little 8 b) ]
            ≡ ok bs
          → (b : ℕ) × (bs ≡ little 8 b) × (received gauge (int z) ≡ float b) × (b < 2 ^ 64)
      of_int none e h = cc
      of_int (some b) e h = (b, sym (ok-injective h), ground (arith, e), fl.of_int_lt z b e)

  -- A value of each type, read where it was packed.
  unpack_value-pack :
      (t : ValueType) (x : Num) {bs : Bytes} (at : ℕ) (front rest : Bytes)
      → IsNum x
      → pack_value fl t x ≡ ok bs
      → length front ≡ at
      → (length bs ≡ 8) × (unpack_value t (front ++ (bs ++ rest)) at ≡ ok (received t x))
  unfolding pack_value unpack_value
  unpack_value-pack counter x at front rest is h hf = unpack_unsigned-pack x at front rest h hf
  unpack_value-pack absolute x at front rest is h hf = unpack_unsigned-pack x at front rest h hf
  unpack_value-pack derive (int z) at front rest is h hf =
      let (same, fits) = pack_long-eq-ok z h in
      rw same (length-big 8 (pattern64 z), rw (unpack_long-big z at front rest fits hf))
  unpack_value-pack derive (float b) at front rest is h hf = cc
  unpack_value-pack gauge x {bs} at front rest is h hf =
      let (b, same, arrives, fits) = pack_double-received x is h in
      rw same (
        length-little 8 b,
        rw (bytes_at-append 8 at front (little 8 b) rest hf (length-little 8 b))
            (rw (of_little-little 8 b fits) (ap ok (sym arrives))),
      )

  -- The bytes that `_encode_values` appends to the template.
  unfoldable pub encoded : List ValueType → List Num → Result Bytes
  encoded (t ∷ ts) (x ∷ xs) = do p ← pack_value fl t x; ps ← encoded ts xs; ok (p ++ ps)
  encoded [] xs = ok []
  encoded (t ∷ ts) [] = ok []

  encode_loop-eq-ok :
      (msg : Bytes) (ts : List ValueType) (xs : List Num) {out : Bytes}
      → encode_loop fl msg ts xs ≡ ok out
      → (bytes : Bytes) × (encoded ts xs ≡ ok bytes) × (out ≡ msg ++ bytes)
  unfolding encode_loop encoded
  encode_loop-eq-ok msg [] xs h = ([], refl, cc (append-nil msg))
  encode_loop-eq-ok msg (t ∷ ts) [] h = ([], refl, cc (append-nil msg))
  encode_loop-eq-ok msg (t ∷ ts) (x ∷ xs) h =
      let (p, packed, more) = >>=-eq-ok (pack_value fl t x) _ h in
      let (ps, encoded_rest, shape) = encode_loop-eq-ok (msg ++ p) ts xs more in
      (p ++ ps, ground arith, shape ∙ append_assoc msg p ps)

  find_format-code_of : (t : ValueType) → find_format (code_of t) ≡ ok t
  unfolding find_format
  find_format-code_of t = rw (value_type_of-code_of t, find_format)

  -- The loop reads the codes from `types_at` on and the values from `values_pos` on, in one buffer.
  unpack_values_loop-encoded :
      (ts : List ValueType) (xs : List Num) {bytes : Bytes} (buf : Bytes) (types_at values_pos : ℕ)
      (before codes_rest front rest : Bytes)
      → length ts ≤ length xs
      → All IsNum xs
      → encoded ts xs ≡ ok bytes
      → buf ≡ before ++ (map code_of ts ++ codes_rest)
      → length before ≡ types_at
      → buf ≡ front ++ (bytes ++ rest)
      → length front ≡ values_pos
      → unpack_values_loop (length ts) buf types_at values_pos ≡ ok (received_all ts xs)
  unfolding unpack_values_loop encoded
  unpack_values_loop-encoded [] xs buf ta vp before cr front rest n is h e1 l1 e2 l2 = refl
  unpack_values_loop-encoded (t ∷ ts) [] buf ta vp before cr front rest n is h e1 l1 e2 l2 =
      absurd (omega arith)
  unpack_values_loop-encoded (t ∷ ts) (x ∷ xs) {bytes} buf ta vp before cr front rest n is h e1 l1
        e2 l2 =
      let (p, packed, more) = >>=-eq-ok (pack_value fl t x) _ h in
      let (ps, encoded_rest, done) = >>=-eq-ok (encoded ts xs) _ more in
      let behind : buf ≡ front ++ (p ++ (ps ++ rest)) = e2 ∙ cc (done, append_assoc p ps rest) in
      let (size, value) = unpack_value-pack t x vp front (ps ++ rest) is.0 packed l2 in
      let code : unpack_char buf ta ≡ ok (code_of t) =
        rw e1 (unpack_char_self (code_of t) ta before (map code_of ts ++ cr) l1) in
      let found : unpack_value t buf vp ≡ ok (received t x) = rw behind value in
      let others : unpack_values_loop (length ts) buf (ta + 1) (vp + 8) ≡ ok (received_all ts xs) =
        unpack_values_loop-encoded ts xs buf (ta + 1) (vp + 8) (before ++ (code_of t ∷ [])) cr
          (front ++ p) rest (omega arith) is.1 encoded_rest
          (e1 ∙ sym (append_assoc before (code_of t ∷ []) (map code_of ts ++ cr)))
          (omega (arith, length-append before (code_of t ∷ [])))
          (behind ∙ sym (append_assoc front p (ps ++ rest)))
          (omega (arith, length-append front p)) in
      rw code (rw (find_format-code_of t) (rw found (rw others)))

  length-encoded :
      (ts : List ValueType) (xs : List Num) {bytes : Bytes}
      → length ts ≤ length xs
      → All IsNum xs
      → encoded ts xs ≡ ok bytes
      → length bytes ≡ 8 * length ts
  unfolding encoded
  length-encoded [] xs n is h = ground arith
  length-encoded (t ∷ ts) [] n is h = absurd (omega arith)
  length-encoded (t ∷ ts) (x ∷ xs) n is h =
      let (p, packed, more) = >>=-eq-ok (pack_value fl t x) _ h in
      let (ps, encoded_rest, done) = >>=-eq-ok (encoded ts xs) _ more in
      let (size, _) = unpack_value-pack t x 0 [] [] is.0 packed refl in
      ground (arith, length-append p ps, size, length-encoded ts xs (omega arith) is.1 encoded_rest)

  -- The part that `_encode_values` writes for a type, and what `_unpack_values` reads from it.
  pub IsPart-encode_values :
      (t : CollectdType) (xs : List Num) {payload : Bytes}
      → IsTemplate t
      → length t.value_types ≤ length xs
      → All IsNum xs
      → encode_values fl t xs ≡ ok payload
      → (body : Bytes) × IsPart type_values (6 + 9 * length t.value_types) payload body
        × ((rest : Bytes) → unpack_values (payload ++ rest) ≡ ok (received_all t.value_types xs))
  unfolding encode_values unpack_values
  IsPart-encode_values t xs {payload} tmpl n is h =
      let ts = t.value_types in
      let count = length ts in
      let size = 6 + 9 * count in
      let (bytes, enc, shape) = encode_loop-eq-ok t.message_template ts xs h in
      let codes : Bytes = map code_of ts in
      let front : Bytes = big 2 type_values ++ big 2 size in
      let body : Bytes = (big 2 count ++ codes) ++ bytes in
      let whole : payload ≡ big 2 type_values ++ (big 2 size ++ body) =
        rw (shape, tmpl.shape) (simp append_assoc) in
      let part : IsPart type_values size payload body = record {
        shape = whole;
        kind_fits = omega arith;
        size_fits = tmpl.size_fits;
        size_counts = omega (
          arith,
          length-append (big 2 count ++ codes) bytes,
          length-append (big 2 count) codes,
          length-big 2 count,
          length-map code_of ts,
          length-encoded ts xs n is enc,
        );
      } in
      (
        body,
        part,
        λ rest.
            let view : payload ++ rest ≡ front ++ (big 2 count ++ (codes ++ (bytes ++ rest))) =
              rw whole (simp append_assoc) in
            let front_size : length front ≡ 4 = length-header part rest in
            let counted : unpack_short (payload ++ rest) 4 ≡ ok count = rw view (
              unpack_short-big count 4 front (codes ++ (bytes ++ rest))
                (omega (arith, tmpl.size_fits)) front_size) in
            rw counted (
              unpack_values_loop-encoded ts xs (payload ++ rest) types_start (types_start + count)
                (front ++ big 2 count) (bytes ++ rest) ((front ++ big 2 count) ++ codes) rest n is
                enc (view ∙ sym (append_assoc front (big 2 count) (codes ++ (bytes ++ rest))))
                (omega (arith, length-append front (big 2 count), length-big 2 count))
                (rw view (simp append_assoc))
                (omega (
                  arith,
                  length-append (front ++ big 2 count) codes,
                  length-append front (big 2 count),
                  length-big 2 count,
                  length-map code_of ts,
                ))),
      )
