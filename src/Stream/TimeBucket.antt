-- ===== src/Stream/TimeBucket.antt =====
-- The classes `TimeBucket` and `DictFacade` of stream.py: the latest object for each key, dropped
-- when it is older than its own interval allows.
pub mod Expiry
pub mod Reads
use sqlalchemy_collectd.Base.{
  ℕ, ◌+◌, ◌*◌, ◌/◌, Bool, ◌&&◌, not, Option, none, some, List, [], ◌∷◌, if◌then◌else◌, Eq, ◌==◌,
  int_eq, ℤ, pos, negsuc, sub_ℕ, ◌-ℤ◌, ltb_ℤ, Result, ok, raise, type_error, value_error, key_error,
  ◌>>=◌,
}
use sqlalchemy_collectd.Base.Dict
use sqlalchemy_collectd.Base.Dict.{Dict, lookup, insert, remove, contains, keys}
use sqlalchemy_collectd.Protocol.Values.{int_of, of_seconds}

-- `int(i * 1.2)` for an integer, where the product is that of doubles: below 2^50 the double's
-- error is too small to change the integer part of 6 i / 5.
abbrev pub scaled : ℤ → ℤ
scaled (pos n) = pos (n * 6 / 5)
scaled (negsuc n) = sub_ℕ 0 ((n + 1) * 6 / 5)

-- The tuple (timestamp, interval, value) of the dictionary.
pub record Entry {ℓ} (V : Type ℓ) : Type ℓ where
  pub timestamp : ℤ
  pub interval : Option ℤ
  pub value : V

pub record TimeBucket {ℓ} (K V : Type ℓ) : Type ℓ where
  pub bucket : Dict K (Entry V)
  pub last_timestamp : ℤ
  pub last_interval : ℤ

abbrev pub new {ℓ} : {K V : Type ℓ} → TimeBucket K V
new = record { bucket = []; last_timestamp = pos 0; last_interval = pos 0 }

-- A facade shares the dictionary of its bucket: its operations are given that dictionary.
pub record DictFacade : Type 0 where
  pub timestamp : ℤ
  pub interval : Option ℤ

abbrev pub is_stale : ℤ → ℤ → ℤ → Bool
is_stale now timestamp interval = ltb_ℤ timestamp (now -ℤ of_seconds (scaled interval))

-- `timestamp` lies too far before the last one
abbrev pub is_late : ℤ → ℤ → ℤ → Bool
is_late timestamp last_timestamp last_interval =
    not (last_interval == pos 0)
    && ltb_ℤ (int_of timestamp) (int_of last_timestamp -ℤ scaled last_interval)

module _ {ℓ} {K V : Type ℓ} where
  -- The loop over `list(self.bucket)`. An entry with no interval is a TypeError, and what was
  -- deleted before it stays deleted.
  unfoldable pub expire : ℤ → Dict K (Entry V) → Dict K (Entry V) × Result (Unit {0})
  expire now [] = ([], ok tt)
  expire now ((k, e) ∷ d) =
      let rest = expire now d in
      elim e.interval [
        | none ↦ ((k, e) ∷ d, raise type_error)
        | some i ↦ if is_stale now e.timestamp i then rest else ((k, e) ∷ rest.0, rest.1)
      ]

  abbrev pub latest_interval : TimeBucket K V → Option ℤ → ℤ
  latest_interval b none = b.last_interval
  latest_interval b (some i) = i

  -- `last_timestamp` is written after the loop, and not if the loop raises
  abbrev finish :
      TimeBucket K V
      → ℤ
      → Option ℤ
      → Dict K (Entry V) × Result (Unit {0})
      → TimeBucket K V × Result DictFacade
  finish b now interval (d, ok _) = (
    record b { bucket = d; last_timestamp = now },
    ok (record { timestamp = now; interval = interval }),
  )
  finish b now interval (d, raise e) = (record b { bucket = d }, raise e)
  finish b now interval (d, Result.stuck) = (record b { bucket = d }, Result.stuck)

  -- The new interval stays written where the call raises.
  unfoldable pub get_bucket : TimeBucket K V → ℤ → Option ℤ → TimeBucket K V × Result DictFacade
  unfolding expire
  get_bucket b timestamp interval =
      let b' : TimeBucket K V = record b { last_interval = latest_interval b interval } in
      if is_late timestamp b.last_timestamp b'.last_interval
      then (b', raise value_error)
      else finish b' timestamp interval (expire timestamp b.bucket)

  abbrev pub get_data : TimeBucket K V → ℤ → Option ℤ → TimeBucket K V × Result DictFacade
  get_data = get_bucket

module _ {ℓ} {K V : Type ℓ} ⦃e : Eq K⦄ where
  -- `facade[key] = value`
  unfoldable pub set_item : DictFacade → TimeBucket K V → K → V → TimeBucket K V
  set_item f b key value = record b {
    bucket =
        insert key (record { timestamp = f.timestamp; interval = f.interval; value = value })
          b.bucket;
  }

  -- `facade.get(key)`, `facade[key]`, `del facade[key]`
  unfoldable pub get_item : TimeBucket K V → K → Option V
  get_item b key = elim (lookup key b.bucket) [ none ↦ none | some entry ↦ some entry.value ]

  unfoldable pub item : TimeBucket K V → K → Result V
  unfolding get_item
  item b key = elim (get_item b key) [ none ↦ raise key_error | some v ↦ ok v ]

  unfoldable pub del_item : TimeBucket K V → K → Result (TimeBucket K V)
  del_item b key =
      if contains key b.bucket
      then ok (record b { bucket = remove key b.bucket })
      else raise key_error

  abbrev stored : TimeBucket K V → K → V → Result DictFacade → TimeBucket K V × Result DictFacade
  stored b key value (ok f) = (set_item f b key value, ok f)
  stored b key value (raise x) = (b, raise x)
  stored b key value Result.stuck = (b, Result.stuck)

  unfoldable pub put : TimeBucket K V → ℤ → ℤ → K → V → TimeBucket K V × Result DictFacade
  unfolding set_item
  put b timestamp interval key value =
      let (b', r) = get_bucket b timestamp (some interval) in stored b' key value r

  unfoldable pub get : TimeBucket K V → ℤ → K → Option ℤ → TimeBucket K V × Result (Option V)
  unfolding get_item
  get b current_time key interval =
      let (b', r) = get_bucket b current_time interval in (b', (do f ← r; ok (get_item b' key)))
