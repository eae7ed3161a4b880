-- ===== src/Stream/TimeBucket/Reads.antt =====
-- What can be read from a `TimeBucket` after a write, and that every operation keeps it in order.
use sqlalchemy_collectd.Base.{
  Option, none, some, ◌≡◌, ◌≢◌, refl, ap, ◌∙◌, if◌then◌else◌, Eq, ◌==◌, beq_refl, ℤ, pos, ◌+ℤ◌,
  ◌≤ℤ◌, ◌<ℤ◌, ok, raise, value_error, arith,
}
use sqlalchemy_collectd.Base.Dict.{lookup, insert, lookup-insert}
use sqlalchemy_collectd.Protocol.Values.{int_of, of_seconds}
use sqlalchemy_collectd.Stream.TimeBucket.{
  Entry, TimeBucket, scaled, is_stale, expire, get_item, put, get,
}
use sqlalchemy_collectd.Stream.TimeBucket.Expiry.{
  kept, IsKept, AreKept-expire, AreKept-insert, lookup-expire, get_bucket-late, get_bucket-on_time,
  is_late-true, is_late-false, is_stale-false, is_stale-true,
}

-- What a key holds after a time has come, by the age of the entry: the entry as long as it is not
-- older than its interval times 1.2, and then nothing.
abbrev AgesBy {ℓ} : {V : Type ℓ} → ℤ → Entry V → Option ℤ → Option (Entry V) → Type ℓ
AgesBy now x none later = later ≡ some x
AgesBy now x (some i) later =
    (now ≤ℤ x.timestamp +ℤ of_seconds (scaled i) → later ≡ some x)
    × (x.timestamp +ℤ of_seconds (scaled i) <ℤ now → later ≡ none)

abbrev pub AgesTo {ℓ} : {V : Type ℓ} → ℤ → Option (Entry V) → Option (Entry V) → Type ℓ
AgesTo now none later = later ≡ none
AgesTo now (some x) later = AgesBy now x x.interval later

unfoldable kept_by {ℓ} : {V : Type ℓ} (now : ℤ) (x : Entry V) → Option ℤ → Option (Entry V)
kept_by now x none = some x
kept_by now x (some i) = if is_stale now x.timestamp i then none else some x

module _ {ℓ} {K V : Type ℓ} ⦃e : Eq K⦄ where
  -- An accepted write, and what each key then holds.
  module _ (b : TimeBucket K V) (t i : ℤ) (k : K) (v : V) where
    abbrev written : TimeBucket K V
    written = record {
      bucket =
          insert k (record { timestamp = t; interval = some i; value = v }) (expire t b.bucket).0;
      last_timestamp = t;
      last_interval = i;
    }

    put-on_time :
        IsKept b
        → int_of b.last_timestamp ≤ℤ int_of t +ℤ scaled i
        → put b t i k v ≡ (written, ok (record { timestamp = t; interval = some i }))
    unfolding put
    put-on_time h on_time =
        rw (get_bucket-on_time b t (some i) h (is_late-false t b.last_timestamp i on_time)) refl

    written-IsKept : IsKept b → IsKept written
    written-IsKept h =
        AreKept-insert k (record { timestamp = t; interval = some i; value = v })
          (expire t b.bucket).0 refl (AreKept-expire t b.bucket h).0

    get-written_late :
        (now : ℤ)
        → i ≢ pos 0
        → int_of now +ℤ scaled i <ℤ int_of t
        → (get written now k none).1 ≡ raise value_error
    unfolding get
    get-written_late now n late =
        rw (get_bucket-late written now none (is_late-true now t i n late)) refl

    get-written_on_time :
        (now : ℤ)
        → IsKept b
        → int_of t ≤ℤ int_of now +ℤ scaled i
        → (get written now k none).1 ≡ ok (if is_stale now t i then none else some v)
    unfolding get
    get-written_on_time now h on_time =
        rw (get_bucket-on_time written now none (written-IsKept h) (is_late-false now t i on_time))
          (ap ok found)
      where
        entry : Entry V
        entry = record { timestamp = t; interval = some i; value = v }

        there : lookup k (expire now written.bucket).0 ≡ kept now (some entry)
        there =
            lookup-expire now k written.bucket (written-IsKept h)
            ∙ ap (kept now) {y = some entry}
                (lookup-insert k k entry (expire t b.bucket).0 ∙ rw (beq_refl k) refl)

        read :
            (o : Option (Entry V))
            → o ≡ kept now (some entry)
            → elim o [ none ↦ none | some x ↦ some x.value ]
              ≡ (if is_stale now t i then none else some v)
        read o h = ground arith

        found :
            get_item (record written { bucket = (expire now written.bucket).0 }) k
            ≡ (if is_stale now t i then none else some v)
        found = unfold get_item in read (lookup k (expire now written.bucket).0) there

    -- After an accepted `put` of a value under a key, `get` of that key raises a ValueError for a
    -- time before the accepted interval, returns the value as long as it is not older than its
    -- interval times 1.2, and returns `None` after that.
    pub get-put :
        (now : ℤ)
        → IsKept b
        → int_of b.last_timestamp ≤ℤ int_of t +ℤ scaled i
        → (i ≢ pos 0
            → int_of now +ℤ scaled i <ℤ int_of t
            → (get (put b t i k v).0 now k none).1 ≡ raise value_error)
          × (int_of t ≤ℤ int_of now +ℤ scaled i
              → now ≤ℤ t +ℤ of_seconds (scaled i)
              → (get (put b t i k v).0 now k none).1 ≡ ok (some v))
          × (int_of t ≤ℤ int_of now +ℤ scaled i
              → t +ℤ of_seconds (scaled i) <ℤ now
              → (get (put b t i k v).0 now k none).1 ≡ ok none)
    get-put now h accepted = rw (put-on_time h accepted) (
      get-written_late now,
      (λ on_time fresh. get-written_on_time now h on_time ∙ rw (is_stale-false now t i fresh) refl),
      (λ on_time old. get-written_on_time now h on_time ∙ rw (is_stale-true now t i old) refl),
    )

    -- An accepted `put` is a write of one key: that key then holds the new entry, every other key
    -- what it held if that is not yet too old, and the bucket stays in order.
    pub lookup-put :
        (j : K)
        → IsKept b
        → int_of b.last_timestamp ≤ℤ int_of t +ℤ scaled i
        → IsKept (put b t i k v).0
          × (lookup j (put b t i k v).0.bucket ≡ (
              if k == j
              then some (record { timestamp = t; interval = some i; value = v })
              else kept t (lookup j b.bucket)))
    lookup-put j h accepted = rw (put-on_time h accepted) (
      written-IsKept h,
      lookup-insert k j (record { timestamp = t; interval = some i; value = v })
            (expire t b.bucket).0
          ∙ ap
              (λ o.
                if k == j then some (record { timestamp = t; interval = some i; value = v }) else o)
              (lookup-expire t j b.bucket h),
    )
