-- ===== src/Stream/TimeBucket/Expiry.antt =====
-- What a `TimeBucket` keeps and gives back, and when it refuses a time.
use sqlalchemy_collectd.Base.{
  Bool, true, false, ◌&&◌, not, Option, none, some, [], ◌∷◌, ◌≡◌, ◌≢◌, refl, if◌then◌else◌,
  Bool-cases, Eq, ◌==◌, int_eq, inl, inr, ℤ, pos, ◌-ℤ◌, ◌+ℤ◌, ◌≤ℤ◌, ltb_ℤ, ok, raise, value_error,
  arith, ◌<ℤ◌, ltb_ℤ_iff, int_laws, +ℤ_parts, -ℤ_parts,
}
use mathlib.Core.Path.{subst}
use sqlalchemy_collectd.Base.Dict.{Dict, lookup, insert, contains}
use sqlalchemy_collectd.Protocol.Values.{int_of, of_seconds}
use sqlalchemy_collectd.Stream.TimeBucket.{
  Entry, TimeBucket, scaled, is_stale, is_late, latest_interval, expire, get_bucket,
}

abbrev pub has_interval {ℓ} : {V : Type ℓ} → Entry V → Bool
has_interval e = elim e.interval [ none ↦ false | some i ↦ true ]

-- what is left of an entry at a time
abbrev pub kept {ℓ} : {V : Type ℓ} → ℤ → Option (Entry V) → Option (Entry V)
kept now none = none
kept now (some e) = elim e.interval [
  | none ↦ some e
  | some i ↦ if is_stale now e.timestamp i then none else some e
]

module _ {ℓ} {K V : Type ℓ} ⦃e : Eq K⦄ where
  -- No key stands twice, and each entry has an interval.
  abbrev pub AreKept : Dict K (Entry V) → Type 0
  AreKept [] = Unit {0}
  AreKept ((k, x) ∷ d) = (contains k d ≡ false) × (has_interval x ≡ true) × AreKept d

  abbrev pub IsKept : TimeBucket K V → Type 0
  IsKept b = AreKept b.bucket

  lookup_of_not_contains : (k : K) (d : Dict K (Entry V)) → contains k d ≡ false → lookup k d ≡ none
  lookup_of_not_contains k [] h = refl
  lookup_of_not_contains k ((j, x) ∷ d) h = ground (arith, lookup_of_not_contains k d)

  contains-expire :
      (now : ℤ) (k : K) (d : Dict K (Entry V))
      → contains k d ≡ false
      → contains k (expire now d).0 ≡ false
  unfolding expire
  contains-expire now k [] h = refl
  contains-expire now k ((j, x) ∷ d) h = ground (arith, contains-expire now k d)

  pub AreKept-expire :
      (now : ℤ) (d : Dict K (Entry V))
      → AreKept d
      → AreKept (expire now d).0 × ((expire now d).1 ≡ ok tt)
  unfolding expire
  AreKept-expire now [] h = (tt, refl)
  AreKept-expire now ((j, x) ∷ d) h =
      ground (arith, AreKept-expire now d h.2, contains-expire now j d h.0)

  pub lookup-expire :
      (now : ℤ) (k : K) (d : Dict K (Entry V))
      → AreKept d
      → lookup k (expire now d).0 ≡ kept now (lookup k d)
  unfolding expire
  lookup-expire now k [] h = refl
  lookup-expire now k ((j, x) ∷ d) h = ground (
    arith,
    e.beq_iff j k,
    lookup-expire now k d h.2,
    lookup_of_not_contains k d,
    subst (λ q. contains q d ≡ false) {x = j} {y = k},
    h.0,
  )

  contains-insert_ne :
      (k j : K) (x : Entry V) (d : Dict K (Entry V))
      → (j == k) ≡ false
      → contains k d ≡ false
      → contains k (insert j x d) ≡ false
  contains-insert_ne k j x [] n h = ground arith
  contains-insert_ne k j x ((i, y) ∷ d) n h =
      ground (arith, e.beq_iff i j, e.beq_iff j k, e.beq_iff i k, contains-insert_ne k j x d)

  pub AreKept-insert :
      (k : K) (x : Entry V) (d : Dict K (Entry V))
      → has_interval x ≡ true
      → AreKept d
      → AreKept (insert k x d)
  AreKept-insert k x [] hx h = (refl, hx, tt)
  AreKept-insert k x ((j, y) ∷ d) hx h = elim (Bool-cases (j == k)) [
    | inl same ↦ rw same (h.0, hx, h.2)
    | inr other ↦
        rw other (contains-insert_ne j k x d (flip j k other) h.0, h.1, AreKept-insert k x d hx h.2)
  ]
    where
      flip : (a b : K) → (a == b) ≡ false → (b == a) ≡ false
      flip a b h = ground (arith, e.beq_iff a b, e.beq_iff b a)

  -- The call's two outcomes.
  pub get_bucket-late :
      (b : TimeBucket K V) (t : ℤ) (i : Option ℤ)
      → is_late t b.last_timestamp (latest_interval b i) ≡ true
      → get_bucket b t i ≡ (record b { last_interval = latest_interval b i }, raise value_error)
  unfolding get_bucket
  get_bucket-late b t i h = rw h

  pub get_bucket-on_time :
      (b : TimeBucket K V) (t : ℤ) (i : Option ℤ)
      → IsKept b
      → is_late t b.last_timestamp (latest_interval b i) ≡ false
      → get_bucket b t i ≡ (
        record {
          bucket = (expire t b.bucket).0;
          last_timestamp = t;
          last_interval = latest_interval b i;
        },
        ok (record { timestamp = t; interval = i }),
      )
  unfolding get_bucket
  get_bucket-on_time b t i kept h =
      let (_, done) = AreKept-expire t b.bucket kept in rw h (ground arith)

-- The code's two tests in the order of the integers.
pub is_late-true :
    (t last i : ℤ) → i ≢ pos 0 → int_of t +ℤ scaled i <ℤ int_of last → is_late t last i ≡ true
is_late-true t last i n h = late_test i (int_of t) (int_of last) (scaled i) n h
  where
    late_test :
        (i a b s : ℤ) → i ≢ pos 0 → a +ℤ s <ℤ b → (not (i == pos 0) && ltb_ℤ a (b -ℤ s)) ≡ true
    late_test i a b s n h = ground (arith, int_eq.beq_iff i (pos 0), +ℤ_parts a s, -ℤ_parts b s)

pub is_late-false : (t last i : ℤ) → int_of last ≤ℤ int_of t +ℤ scaled i → is_late t last i ≡ false
is_late-false t last i h = late_test i (int_of t) (int_of last) (scaled i) h
  where
    late_test : (i a b s : ℤ) → b ≤ℤ a +ℤ s → (not (i == pos 0) && ltb_ℤ a (b -ℤ s)) ≡ false
    late_test i a b s h = ground (arith, +ℤ_parts a s, -ℤ_parts b s)

pub is_stale-false : (now t i : ℤ) → now ≤ℤ t +ℤ of_seconds (scaled i) → is_stale now t i ≡ false
is_stale-false now t i h =
    (ltb_ℤ_iff t (now -ℤ of_seconds (scaled i))).1 (moved now t (of_seconds (scaled i)) h)
  where
    moved : (a b s : ℤ) → a ≤ℤ b +ℤ s → a -ℤ s ≤ℤ b
    moved a b s h = omega int_laws

pub is_stale-true : (now t i : ℤ) → t +ℤ of_seconds (scaled i) <ℤ now → is_stale now t i ≡ true
is_stale-true now t i h = test now t (of_seconds (scaled i)) h
  where
    test : (a b s : ℤ) → b +ℤ s <ℤ a → ltb_ℤ b (a -ℤ s) ≡ true
    test a b s h = ground (arith, +ℤ_parts b s, -ℤ_parts a s)
