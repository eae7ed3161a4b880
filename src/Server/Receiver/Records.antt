-- ===== src/Server/Receiver/Records.antt =====
-- server/receiver.py: the records of a bucket under the names that they are stored at.
use sqlalchemy_collectd.Base.{
  true, Option, none, some, Option-cases, List, [], ◌∷◌, ◌≡◌, refl, sym, ◌∙◌, ap, nat_eq, list_eq,
  option_eq, pair_eq, ◌==◌, ℤ, ok, inl, inr, Bool-cases, All, beq_refl, arith,
}
use sqlalchemy_collectd.Base.Dict.{Dict, lookup, insert, keys, contains}
use sqlalchemy_collectd.Protocol.Bytes.{Text}
use sqlalchemy_collectd.Protocol.Values.{Values}
use sqlalchemy_collectd.Protocol.Values.Sums.{Agrees}
use sqlalchemy_collectd.Stream.TimeBucket.{Entry, TimeBucket, expire, item, get_item}
use sqlalchemy_collectd.Server.Receiver.{Key, key_of, records_at}

-- Each record is stored under its host, its program and its process, and has the property.
abbrev pub AreOwned : (Values → Type 0) → Dict Key (Entry Values) → Type 0
AreOwned P [] = Unit {0}
AreOwned P ((k, x) ∷ d) = (key_of x.value ≡ k) × P x.value × AreOwned P d

pub AreOwned-expire :
    (P : Values → Type 0) (now : ℤ) (d : Dict Key (Entry Values))
    → AreOwned P d
    → AreOwned P (expire now d).0
unfolding expire
AreOwned-expire P now [] h = tt
AreOwned-expire P now ((k, x) ∷ d) h = ground (arith, AreOwned-expire P now d h.2, h.0, h.1)

pub AreOwned-insert :
    (P : Values → Type 0) (k : Key) (x : Entry Values) (d : Dict Key (Entry Values))
    → key_of x.value ≡ k
    → P x.value
    → AreOwned P d
    → AreOwned P (insert k x d)
AreOwned-insert P k x [] own shaped h = (own, shaped, tt)
AreOwned-insert P k x ((j, y) ∷ d) own shaped h = elim (Bool-cases (j == k)) [
  | inl same ↦ rw same (
    own ∙ sym (((pair_eq {A = Option Text} {B = Option Text × Option Text}).beq_iff j k).0 same),
    shaped,
    h.2,
  )
  | inr other ↦ rw other (h.0, h.1, AreOwned-insert P k x d own shaped h.2)
]

-- A key of the bucket has a record, of its own.
abbrev pub IsFound : (Values → Type 0) → TimeBucket Key Values → Key → Type 0
IsFound P b k = (v : Values) × (item b k ≡ ok v) × (key_of v ≡ k) × P v

-- Records for keys, one by one.
abbrev pub AreRecords : (Values → Type 0) → List Key → List Values → Type 0
AreRecords P [] [] = Unit {0}
AreRecords P [] (v ∷ vs) = ⊥
AreRecords P (k ∷ ks) [] = ⊥
AreRecords P (k ∷ ks) (v ∷ vs) = (key_of v ≡ k) × P v × AreRecords P ks vs

module _ (P : Values → Type 0) (b : TimeBucket Key Values) where
  pub records_at-AreRecords :
      (ks : List Key)
      → All (IsFound P b) ks
      → (vs : List Values) × (records_at b ks ≡ ok vs) × AreRecords P ks vs
  unfolding records_at
  records_at-AreRecords [] h = ([], refl, tt)
  records_at-AreRecords (k ∷ ks) ((v, found, own, shaped), h) =
      let (vs, rest, owns) = records_at-AreRecords ks h in
      (v ∷ vs, rw (found, rest) refl, (own, shaped, owns))

item-eq-ok :
    (b : TimeBucket Key Values) (k : Key) (x : Entry Values)
    → lookup k b.bucket ≡ some x
    → item b k ≡ ok x.value
unfolding item get_item
item-eq-ok b k x h = ground arith

lookup-IsFound :
    (P : Values → Type 0) (b : TimeBucket Key Values) (d : Dict Key (Entry Values)) (k : Key)
    → AreOwned P d
    → contains k d ≡ true
    → lookup k b.bucket ≡ lookup k d
    → IsFound P b k
lookup-IsFound P b [] k h c e = cc
lookup-IsFound P b ((j, x) ∷ d) k h c e = elim (Bool-cases (j == k)) [
  | inl same ↦ (
    x.value,
    item-eq-ok b k x (e ∙ rw same refl),
    h.0 ∙ ((pair_eq {A = Option Text} {B = Option Text × Option Text}).beq_iff j k).0 same,
    h.1,
  )
  | inr other ↦ lookup-IsFound P b d k h.2 (rw other at c) (rw other at e)
]

pub keys-IsFound :
    (P : Values → Type 0) (b : TimeBucket Key Values)
    → AreOwned P b.bucket
    → All (IsFound P b) (keys b.bucket)
keys-IsFound P b owned = all b.bucket (λ k c. c)
  where
    all :
        (d : Dict Key (Entry Values))
        → ((k : Key) → contains k d ≡ true → contains k b.bucket ≡ true)
        → All (IsFound P b) (keys d)
    all [] sub = tt
    all ((k, x) ∷ d) sub = (
      lookup-IsFound P b b.bucket k owned (sub k (ground (arith, beq_refl {A = Key} k))) refl,
      all d (λ j c. sub j (ground (arith, c))),
    )

-- A slot that all summands share is that of the sum, `None` too.
pub slot_of_Agrees :
    {A : Type 0} (slot : Values → Option A) (v : Values) (vs : List Values) (w : Values)
    (o : Option A)
    → Agrees slot (v ∷ vs) w
    → All (λ u. slot u ≡ o) (v ∷ vs)
    → slot w ≡ o
slot_of_Agrees slot v vs w (some x) agrees all = (agrees x).1 all
slot_of_Agrees slot v vs w none agrees all = elim (Option-cases (slot w)) [
  | inl e ↦ e
  | inr (x, e) ↦ let (first, rest) = (agrees x).0 e in let p : slot v ≡ none = all.0 in cc
]

pub AreRecords-All :
    (P : Values → Type 0) (ks : List Key) (vs : List Values) → AreRecords P ks vs → All P vs
AreRecords-All P [] [] h = tt
AreRecords-All P [] (v ∷ vs) h = absurd h
AreRecords-All P (k ∷ ks) [] h = absurd h
AreRecords-All P (k ∷ ks) (v ∷ vs) h = (h.1, AreRecords-All P ks vs h.2)

-- The records of keys that agree in a slot agree in it.
pub AreRecords-slot :
    {A : Type 0} (P : Values → Type 0) (slot : Values → Option A) (part : Key → Option A)
    → ((v : Values) → slot v ≡ part (key_of v))
    → (o : Option A) (ks : List Key) (vs : List Values) → AreRecords P ks vs
    → All (λ k. part k ≡ o) ks
    → All (λ v. slot v ≡ o) vs
AreRecords-slot P slot part of o [] [] h hs = tt
AreRecords-slot P slot part of o [] (v ∷ vs) h hs = absurd h
AreRecords-slot P slot part of o (k ∷ ks) [] h hs = absurd h
AreRecords-slot P slot part of o (k ∷ ks) (v ∷ vs) h hs =
    (of v ∙ ap part h.0 ∙ hs.0, AreRecords-slot P slot part of o ks vs h.2 hs.1)
