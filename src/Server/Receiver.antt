-- ===== src/Server/Receiver.antt =====
-- server/receiver.py: the latest objects of each process, and their sums by program and by host.
pub mod Keys
pub mod Ownership
pub mod Records
use sqlalchemy_collectd.Base.{
  Bool, true, false, ◌&&◌, Option, none, some, List, [], ◌∷◌, nat_eq, list_eq, option_eq, pair_eq,
  ◌==◌, if◌then◌else◌, ltb, ℤ, pos, ◌*ℤ◌, Result, ok, raise, stuck, type_error, key_error,
  index_error, ◌>>=◌,
}
use sqlalchemy_collectd.Base.Dict.{Dict, lookup, insert}
use sqlalchemy_collectd.Number.{int}
use sqlalchemy_collectd.Protocol.Bytes.{Text}
use sqlalchemy_collectd.Protocol.Types.{CollectdType}
use sqlalchemy_collectd.Protocol.Values.{Values, build}
use sqlalchemy_collectd.CollectdTypes.{
  process_name, pool_internal, totals_internal, process_internal,
}
use sqlalchemy_collectd.Stream.TimeBucket
use sqlalchemy_collectd.Stream.TimeBucket.{TimeBucket, DictFacade, get_data, set_item, item}
use sqlalchemy_collectd.Stream.Translator
use sqlalchemy_collectd.Stream.Translator.{StreamTranslator, break_into_individual_values}

-- (hostname, progname, process_token)
abbrev pub Key : Type 0
Key = Option Text × (Option Text × Option Text)

abbrev pub Buckets : Type 0
Buckets = Dict Text (TimeBucket Key Values)

pub record Receiver : Type 0 where
  pub collectd_types : List CollectdType
  pub translator : StreamTranslator
  pub buckets : Buckets

-- `Receiver.collectd_types`
unfoldable pub collectd_types : Result (List CollectdType)
collectd_types = do
  pool ← pool_internal
  totals ← totals_internal
  process ← process_internal
  ok (pool ∷ totals ∷ process ∷ [])

new_buckets : List CollectdType → Buckets → Buckets
new_buckets [] d = d
new_buckets (t ∷ ts) d = new_buckets ts (insert t.name TimeBucket.new d)

unfoldable pub new : Result Receiver
unfolding collectd_types new_buckets
new = do
  types ← collectd_types
  translator ← Translator.new types
  ok (record { collectd_types = types; translator = translator; buckets = new_buckets types [] })

abbrev pub written :
    Key
    → Values
    → TimeBucket Key Values × Result DictFacade
    → TimeBucket Key Values × Result (Unit {0})
written key v (b, ok f) = (set_item f b key v, ok tt)
written key v (b, raise e) = (b, raise e)
written key v (b, stuck) = (b, stuck)

-- A write through the facade of a bucket, where the bucket accepts the time.
unfoldable pub store :
    TimeBucket Key Values → ℤ → ℤ → Key → Values → TimeBucket Key Values × Result (Unit {0})
store b timestamp interval key v = written key v (get_data b timestamp (some interval))

-- A bucket of the dictionary is an object of its own: what a call leaves in it stays there.
unfoldable pub store_named : Buckets → Text → ℤ → ℤ → Key → Values → Buckets × Result (Unit {0})
unfolding store
store_named buckets name timestamp interval key v = elim (lookup name buckets) [
  | none ↦ (buckets, raise key_error)
  | some b ↦ let (b', r) = store b timestamp interval key v in (insert name b' buckets, r)
]

-- `if process_token:`
abbrev pub is_given : Option Text → Bool
is_given none = false
is_given (some []) = false
is_given (some (c ∷ cs)) = true

abbrev pub key_of : Values → Key
key_of v = (v.host, (v.plugin_instance, v.type_instance))

-- `values.build(type=process_internal.name, values=[1])`
abbrev pub process_record : Values → Values
process_record v =
    build v (λ d. record d { type = some process_name; values = some (int (pos 1) ∷ []) })

abbrev count_process : Values → ℤ → Buckets × Result (Unit {0}) → Buckets × Result (Unit {0})
count_process v t (buckets, ok _) =
    if is_given v.type_instance
    then store_named buckets process_name t (v.interval *ℤ pos 5) (key_of v) (process_record v)
    else (buckets, ok tt)
count_process v t (buckets, raise e) = (buckets, raise e)
count_process v t (buckets, stuck) = (buckets, stuck)

-- `_set_stats`, on the buckets. An object with no type has no bucket, and one with no time cannot
-- be compared with the last time.
unfoldable pub set_stats : Buckets → Values → Buckets × Result (Unit {0})
unfolding store_named
set_stats buckets v = elim v.type [
  | none ↦ (buckets, raise key_error)
  | some name ↦ elim v.time [
    | none ↦ (buckets, raise type_error)
    | some t ↦ count_process v t (store_named buckets name t (v.interval *ℤ pos 2) (key_of v) v)
  ]
]

-- `receive`, on what the network receiver returned
unfoldable pub receive : Receiver → Option Values → Receiver × Result (Unit {0})
unfolding set_stats
receive r none = (r, ok tt)
receive r (some v) = let (buckets, x) = set_stats r.buckets v in (record r { buckets = buckets }, x)

-- The order of texts and of keys. Python compares two keys in the first slot that differs, and raises
-- a TypeError if that has a text in one and `None` in the other: `slot_before` is used only where
-- `are_comparable` holds, and then never for such two.
abbrev pub text_before : Text → Text → Bool
text_before [] [] = false
text_before [] (y ∷ ys) = true
text_before (x ∷ xs) [] = false
text_before (x ∷ xs) (y ∷ ys) =
    if ltb x y then true else if ltb y x then false else text_before xs ys

abbrev pub slot_before : Option Text → Option Text → Bool
slot_before none none = false
slot_before none (some t) = true
slot_before (some s) none = false
slot_before (some s) (some t) = text_before s t

abbrev pub key_before : Key → Key → Bool
key_before (h, (p, t)) (h', (p', t')) =
    if h == h' then (if p == p' then slot_before t t' else slot_before p p') else slot_before h h'

abbrev pub is_comparable_slot : Option Text → Option Text → Bool
is_comparable_slot none none = true
is_comparable_slot none (some t) = false
is_comparable_slot (some s) none = false
is_comparable_slot (some s) (some t) = true

abbrev pub is_comparable : Key → Key → Bool
is_comparable (h, (p, t)) (h', (p', t')) =
    if h == h'
    then (if p == p' then is_comparable_slot t t' else is_comparable_slot p p')
    else is_comparable_slot h h'

abbrev pub is_comparable_with : Key → List Key → Bool
is_comparable_with k [] = true
is_comparable_with k (j ∷ js) = is_comparable k j && is_comparable_with k js

-- `sorted(records)` raises nothing. A sort compares any two keys that stand side by side in its result,
-- so it comes to two that cannot be compared if there are any.
unfoldable pub are_comparable : List Key → Bool
are_comparable [] = true
are_comparable (k ∷ ks) = is_comparable_with k ks && are_comparable ks

-- `(rec[0], rec[1])` and `rec[0]`
abbrev pub program_of : Key → Option Text × Option Text
program_of (h, (p, t)) = (h, p)

abbrev pub host_of : Key → Option Text
host_of (h, (p, t)) = h

-- `[records[key] for key in keys]`
unfoldable pub records_at : TimeBucket Key Values → List Key → Result (List Values)
records_at b [] = ok []
records_at b (k ∷ ks) = do v ← item b k; vs ← records_at b ks; ok (v ∷ vs)

-- `recs[0].interval`; a group is never empty
abbrev pub first_interval : List Values → Result ℤ
first_interval [] = raise index_error
first_interval (v ∷ vs) = ok v.interval
