-- ===== src/Server/Stats/Groups.antt =====
-- server/receiver.py: what a walk over groups of keys yields.
use sqlalchemy_collectd.Base.{
  List, [], ◌∷◌, ◌≡◌, refl, if◌then◌else◌, nat_eq, list_eq, option_eq, pair_eq, Eq, ◌==◌, ℤ, Result,
  ok, inl, inr, Bool-cases, All,
}
use sqlalchemy_collectd.Base.Dict.{keys}
use sqlalchemy_collectd.Base.Generator.{for_each, with_result, yield, done}
use sqlalchemy_collectd.Base.Sorting.{sorted}
use sqlalchemy_collectd.Base.Sorting.Groups.{select, occurs, has_key, groups_of}
use sqlalchemy_collectd.Protocol.Values.{Values}
use sqlalchemy_collectd.Stream.TimeBucket.{TimeBucket, expire}
use sqlalchemy_collectd.Server.Receiver.{Key, key_before}

-- What a walk over groups yields: for each group its sum.
abbrev pub Reports : (List Key → Result Values) → List (List Key) → List Values → Type 0
Reports f [] [] = Unit {0}
Reports f [] (w ∷ ws) = ⊥
Reports f (g ∷ gs) [] = ⊥
Reports f (g ∷ gs) (w ∷ ws) = (f g ≡ ok w) × Reports f gs ws

-- One group where some live key has the name, and none otherwise.
abbrev pub one_group : {G : Type 0} ⦃e : Eq G⦄ → (Key → G) → G → List Key → List (List Key)
one_group of p live = if occurs of p live then select of p live ∷ [] else []

-- The keys of the records that are not too old, sorted.
abbrev pub live_keys : TimeBucket Key Values → ℤ → List Key
live_keys b now = sorted key_before (keys (expire now b.bucket).0)

-- the bucket when its records are read
abbrev pub read_at : TimeBucket Key Values → ℤ → TimeBucket Key Values
read_at b now = record {
  bucket = (expire now b.bucket).0;
  last_timestamp = now;
  last_interval = b.last_interval;
}

module _ {G : Type 0} ⦃e : Eq G⦄ (of : Key → G) (slots : Values → G)
    (f : List Key → Result Values) where
  -- the sum of a group exists, and has the group's name
  abbrev pub IsNamed : List Key → Type 0
  IsNamed g = (w : Values) × (f g ≡ ok w) × ((p : G) → has_key of p g ≡ (slots w == p))

  pub for_each-Reports :
      (gs : List (List Key))
      → All IsNamed gs
      → (ws : List Values) × (for_each (λ g. with_result (f g) (λ v. yield v done)) gs
          ≡ (ws, ok tt))
        × ((p : G) → Reports f (groups_of of p gs) (select slots p ws))
  unfolding for_each
  for_each-Reports [] h = ([], refl, λ p. tt)
  for_each-Reports (g ∷ gs) ((w, done, named), h) =
      let (ws, rest, reports) = for_each-Reports gs h in
      (
        w ∷ ws,
        rw (done, rest) refl,
        λ p. elim (Bool-cases (slots w == p)) [
          | inl q ↦ rw (named p, q) (done, reports p)
          | inr q ↦ rw (named p, q) (reports p)
        ],
      )
