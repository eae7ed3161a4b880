-- ===== src/Tests/Streams.antt =====
-- Sums, time buckets and pieces: the values of tests/test_protocol.py, tests/test_time_bucket.py and
-- tests/test_stream.py.
use sqlalchemy_collectd.Base.{
  ℕ, ◌≡◌, ◌≢◌, refl, none, some, List, [], ◌∷◌, nat_eq, ℤ, pos, ◌+ℤ◌, ◌-ℤ◌, ◌*ℤ◌, ◌≤ℤ◌, ◌<ℤ◌, ok,
  raise, value_error, arith, inl,
}
use mathlib.Core.List.{zip}
use sqlalchemy_collectd.Base.Dict.{lookup}
use sqlalchemy_collectd.Number.{int, add_num}
use sqlalchemy_collectd.Protocol.Bytes.{pack_header, pack_short, big, little}
use sqlalchemy_collectd.Protocol.Types
use sqlalchemy_collectd.Protocol.Types.{ValueType, gauge, derive, CollectdType}
use sqlalchemy_collectd.Protocol.Values.{
  Values, of_seconds, int_of, items, add_values, add, sum_onto, sum, build,
}
use sqlalchemy_collectd.Protocol.Values.Sums.{Agrees, sum-Agrees}
use sqlalchemy_collectd.Protocol.Values.Columns.{HasColumns, column, sum-columns}
use sqlalchemy_collectd.CollectdTypes.{text}
use sqlalchemy_collectd.Stream.TimeBucket.{TimeBucket, scaled, expire, get_bucket, put, get}
use sqlalchemy_collectd.Stream.TimeBucket.Expiry.{kept, IsKept}
use sqlalchemy_collectd.Stream.TimeBucket.Reads.{get-put, lookup-put}
use sqlalchemy_collectd.Stream.Translator
use sqlalchemy_collectd.Stream.Translator.{
  StreamTranslator, add_fields, add_types, internal_type, break_into_individual_values,
}
use sqlalchemy_collectd.Stream.Translator.Pieces.{ArePieces, break-ArePieces}
use sqlalchemy_collectd.Tests.Samples.{floats}

abbrev value : Values
value = record {
  type = some (text "my_type");
  type_instance = none;
  plugin = some (text "someplugin");
  plugin_instance = some (text "someplugininstance");
  host = some (text "somehost");
  time = none;
  interval = pos 10;
  values = none;
}

abbrev holding : ℕ → ℕ → Values
holding a b = record value { values = some (int (pos a) ∷ int (pos b) ∷ []) }

abbrev three : List Values
three = holding 5 10 ∷ holding 25 8 ∷ holding 11 7 ∷ []

sum-three : sum floats three ≡ ok (holding 41 25)
unfolding sum sum_onto add items add_values add_num ◌+ℤ◌ build
sum-three = refl

sum-Agrees_example :
    Agrees (λ v. v.type) three (holding 41 25)
    × Agrees (λ v. v.type_instance) three (holding 41 25)
    × Agrees (λ v. v.plugin) three (holding 41 25)
    × Agrees (λ v. v.plugin_instance) three (holding 41 25)
    × Agrees (λ v. v.host) three (holding 41 25)
    × Agrees (λ v. v.time) three (holding 41 25)
sum-Agrees_example = sum-Agrees floats three (holding 41 25) sum-three

abbrev rows : List (List ℤ)
rows = (pos 5 ∷ pos 10 ∷ []) ∷ (pos 25 ∷ pos 8 ∷ []) ∷ (pos 11 ∷ pos 7 ∷ []) ∷ []

sum-columns_example : HasColumns 2 (sum floats three) (λ i. column i rows)
sum-columns_example =
    sum-columns floats 2 (holding 5 10) (holding 25 8 ∷ holding 11 7 ∷ []) rows
      (refl, refl, (refl, refl, (refl, refl, tt)))

-- A bucket that was written at 50530 and at 50534, in seconds.
abbrev at : ℕ → ℤ
at n = of_seconds (pos n)

abbrev bucket : TimeBucket ℕ ℕ
bucket = record {
  bucket = (1, record { timestamp = at 50530; interval = some (pos 10); value = 7 }) ∷ [];
  last_timestamp = at 50530;
  last_interval = pos 10;
}

get-put_example :
    (pos 10 ≢ pos 0
      → int_of (at 50568) +ℤ scaled (pos 10) <ℤ int_of (at 50534)
      → (get (put bucket (at 50534) (pos 10) 1 8).0 (at 50568) 1 none).1 ≡ raise value_error)
    × (int_of (at 50534) ≤ℤ int_of (at 50568) +ℤ scaled (pos 10)
        → at 50568 ≤ℤ at 50534 +ℤ of_seconds (scaled (pos 10))
        → (get (put bucket (at 50534) (pos 10) 1 8).0 (at 50568) 1 none).1 ≡ ok (some 8))
    × (int_of (at 50534) ≤ℤ int_of (at 50568) +ℤ scaled (pos 10)
        → at 50534 +ℤ of_seconds (scaled (pos 10)) <ℤ at 50568
        → (get (put bucket (at 50534) (pos 10) 1 8).0 (at 50568) 1 none).1 ≡ ok none)
unfolding ◌+ℤ◌ ◌*ℤ◌
get-put_example = get-put bucket (at 50534) (pos 10) 1 8 (at 50568) (refl, refl, tt) (omega arith)

lookup-put_example :
    IsKept (put bucket (at 50534) (pos 10) 2 8).0
    × (lookup 1 (put bucket (at 50534) (pos 10) 2 8).0.bucket
        ≡ kept (at 50534) (lookup 1 bucket.bucket))
unfolding ◌+ℤ◌ ◌*ℤ◌
lookup-put_example = lookup-put bucket (at 50534) (pos 10) 2 8 1 (refl, refl, tt) (omega arith)

-- the reads of tests/test_time_bucket.py
reads :
    ((get (put bucket (at 50534) (pos 10) 1 8).0 (at 50538) 1 none).1 ≡ ok (some 8))
    × ((get (put bucket (at 50534) (pos 10) 1 8).0 (at 50568) 1 none).1 ≡ ok none)
unfolding get put get_bucket expire ◌+ℤ◌ ◌*ℤ◌ ◌-ℤ◌
reads = (refl, refl)

abbrev my_type : CollectdType
my_type = record {
  name = text "my_type";
  field_names = text "some_val" ∷ text "some_other_val" ∷ [];
  value_types = gauge ∷ derive ∷ [];
  message_template = 0 ∷ 6 ∷ 0 ∷ 24 ∷ 0 ∷ 2 ∷ 1 ∷ 2 ∷ [];
}

made :
    (s : StreamTranslator) × (Translator.new (my_type ∷ []) ≡ ok s)
    × (internal_type s (some (text "my_type")) ≡ ok my_type)
unfolding Translator.new Types.init pack_header pack_short big little zip
made = (_, refl, refl)

break-ArePieces_example :
    ArePieces
      (holding 5 10)
      (text "some_val" ∷ text "some_other_val" ∷ [])
      (gauge ∷ derive ∷ [])
      (int (pos 5) ∷ int (pos 10) ∷ [])
      (break_into_individual_values made.0 (holding 5 10))
break-ArePieces_example =
    break-ArePieces (my_type ∷ []) made.0 my_type (holding 5 10) (int (pos 5) ∷ int (pos 10) ∷ [])
      (refl, tt) made.1 (inl refl) made.2 (tt, (tt, tt)) refl refl refl
