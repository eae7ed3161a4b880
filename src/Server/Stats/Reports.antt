-- ===== src/Server/Stats/Reports.antt =====
-- server/receiver.py: the sums that the two methods yield, one for each program or host.
use sqlalchemy_collectd.Base.{
  Bool, true, Option, none, some, List, [], ◌∷◌, ◌≡◌, refl, ◌∙◌, ap, nat_eq, list_eq, option_eq,
  pair_eq, Eq, ℤ, ◌≤ℤ◌, ◌+ℤ◌, ok, All,
}
use sqlalchemy_collectd.Base.Dict.{lookup, keys}
use sqlalchemy_collectd.Base.Generator.{done}
use sqlalchemy_collectd.Base.Sorting.{groupby}
use sqlalchemy_collectd.Base.Sorting.Groups.{
  select, IsGroup, groupby-IsGroup, sorted-All, groupby-All, HasOneGroup,
}
use sqlalchemy_collectd.Number.{Floats}
use sqlalchemy_collectd.Protocol.Bytes.{Text}
use sqlalchemy_collectd.Protocol.Values.{Values, Slots, build, sum, int_of}
use sqlalchemy_collectd.Protocol.Values.Shapes.{IsShaped, sum-IsShaped}
use sqlalchemy_collectd.Protocol.Values.Sums.{sum-Agrees}
use sqlalchemy_collectd.CollectdTypes.{text}
use sqlalchemy_collectd.Stream.TimeBucket.{TimeBucket, scaled, expire, get_bucket}
use sqlalchemy_collectd.Stream.TimeBucket.Expiry.{IsKept, get_bucket-on_time, is_late-false}
use sqlalchemy_collectd.Server.Receiver.{
  Key, Buckets, are_comparable, key_before, program_of, host_of, records_at,
}
use sqlalchemy_collectd.Server.Receiver.Keys.{
  groups_of-groupby, HasTexts, are_comparable-HasTexts, HasTexts-expire,
}
use sqlalchemy_collectd.Server.Stats.{
  group_sum, group_sums, get_stats, get_stats_by_progname, get_stats_by_hostname,
}
use sqlalchemy_collectd.Server.Receiver.Records.{
  AreOwned, AreOwned-expire, IsFound, AreRecords, records_at-AreRecords, keys-IsFound,
  slot_of_Agrees, AreRecords-All, AreRecords-slot,
}
use sqlalchemy_collectd.Server.Stats.Groups.{
  Reports, one_group, live_keys, read_at, IsNamed, for_each-Reports,
}

-- The sum of a group is there: of which records, and what `build` makes of it.
pub record HasSum (fl : Floats) (P : Values → Type 0) (named : Slots → Slots)
    (b : TimeBucket Key Values) (now : ℤ) (k : Key) (ks : List Key) : Type 0 where
  pub first : Values
  pub others : List Values
  pub total : Values
  pub records : AreRecords P (k ∷ ks) (first ∷ others)
  pub summed : sum fl (first ∷ others) ≡ ok total
  pub reported :
      group_sum fl named b now (k ∷ ks)
      ≡ ok (build total (λ d. record (named d) { time = some now; interval = some first.interval }))

module _ (fl : Floats) (P : Values → Type 0) (shape : List Bool)
    (shapes : (v : Values) → P v → IsShaped shape v) (b : TimeBucket Key Values) (now : ℤ) where
  pub group_sum-HasSum :
      (named : Slots → Slots) (k : Key) (ks : List Key)
      → All (IsFound P b) (k ∷ ks)
      → HasSum fl P named b now k ks
  unfolding group_sum
  group_sum-HasSum named k ks found = summed (records_at-AreRecords P b (k ∷ ks) found)
    where
      shaped_all : (vs : List Values) → All P vs → All (IsShaped shape) vs
      shaped_all [] h = tt
      shaped_all (v ∷ vs) h = (shapes v h.0, shaped_all vs h.1)

      summed :
          (vs : List Values) × (records_at b (k ∷ ks) ≡ ok vs) × AreRecords P (k ∷ ks) vs
          → HasSum fl P named b now k ks
      summed ([], e, h) = absurd h
      summed (v ∷ vs, e, h) =
          let (w, done, shaped) =
            sum-IsShaped fl shape v vs
              (shaped_all (v ∷ vs) (AreRecords-All P (k ∷ ks) (v ∷ vs) h)) in
          record {
            first = v;
            others = vs;
            total = w;
            records = h;
            summed = done;
            reported = rw e (rw done refl);
          }

  All-part :
      {G A : Type 0} ⦃e : Eq G⦄ (of : Key → G) (part : G → A) (k : Key) (ks : List Key)
      → IsGroup of (k ∷ ks)
      → All (λ j. part (of j) ≡ part (of k)) (k ∷ ks)
  All-part of part k ks h = (refl, rest ks h)
    where
      rest : (js : List Key) → All (λ j. of j ≡ of k) js → All (λ j. part (of j) ≡ part (of k)) js
      rest [] h = tt
      rest (j ∷ js) h = (ap part h.0, rest js h.1)

  program_sum-IsNamed :
      (g : List Key)
      → All (IsFound P b) g
      → IsGroup program_of g
      → IsNamed program_of (λ v. (v.host, v.plugin_instance)) (group_sum fl (λ d. d) b now) g
  unfolding build
  program_sum-IsNamed [] found h = absurd h
  program_sum-IsNamed (k ∷ ks) found h =
      let s = group_sum-HasSum (λ d. d) k ks found in
      let (_, _, _, instances, hosts, _) = sum-Agrees fl (s.first ∷ s.others) s.total s.summed in
      let host : s.total.host ≡ k.0 =
        slot_of_Agrees (λ v. v.host) s.first s.others s.total k.0 hosts
          (AreRecords-slot P (λ v. v.host) (λ j. j.0) (λ v. refl) k.0 (k ∷ ks) (s.first ∷ s.others)
            s.records (All-part program_of (λ p. p.0) k ks h)) in
      let program : s.total.plugin_instance ≡ k.1.0 =
        slot_of_Agrees (λ v. v.plugin_instance) s.first s.others s.total k.1.0 instances
          (AreRecords-slot P (λ v. v.plugin_instance) (λ j. j.1.0) (λ v. refl) k.1.0 (k ∷ ks)
            (s.first ∷ s.others) s.records (All-part program_of (λ p. p.1) k ks h)) in
      (_, s.reported, λ p. rw (host, program) refl)

  host_sum-IsNamed :
      (g : List Key)
      → All (IsFound P b) g
      → IsGroup host_of g
      → IsNamed host_of
          (λ v. v.host)
          (group_sum fl (λ d. record d { plugin_instance = some (text "host") }) b now)
          g
  unfolding build
  host_sum-IsNamed [] found h = absurd h
  host_sum-IsNamed (k ∷ ks) found h =
      let s =
        group_sum-HasSum (λ d. record d { plugin_instance = some (text "host") }) k ks found in
      let (_, _, _, _, hosts, _) = sum-Agrees fl (s.first ∷ s.others) s.total s.summed in
      let host : s.total.host ≡ k.0 =
        slot_of_Agrees (λ v. v.host) s.first s.others s.total k.0 hosts
          (AreRecords-slot P (λ v. v.host) (λ j. j.0) (λ v. refl) k.0 (k ∷ ks) (s.first ∷ s.others)
            s.records (All-part host_of (λ p. p) k ks h)) in
      (_, s.reported, λ p. rw host refl)

get_stats-eq :
    (fl : Floats) (named : Slots → Slots) (group : List Key → List (List Key)) (buckets : Buckets)
    (name : Text) (b : TimeBucket Key Values) (now : ℤ)
    → lookup name buckets ≡ some b
    → get_bucket b now none ≡ (read_at b now, ok (record { timestamp = now; interval = none }))
    → are_comparable (keys (expire now b.bucket).0) ≡ true
    → (get_stats fl named group buckets name now).1
      ≡ group_sums fl named (read_at b now) now (group (live_keys b now))
unfolding get_stats group_sums
get_stats-eq fl named group buckets name b now found accepted comparable =
    rw (found, get_stats) (rw (accepted, comparable) refl)

-- What the theorems below suppose of a bucket and a time.
pub record IsReadable (P : Values → Type 0) (b : TimeBucket Key Values) (now : ℤ) : Type 0 where
  pub kept : IsKept b
  pub owned : AreOwned P b.bucket
  pub texts : All HasTexts (keys b.bucket)
  pub on_time : int_of b.last_timestamp ≤ℤ int_of now +ℤ scaled b.last_interval

module _ (fl : Floats) (P : Values → Type 0) (shape : List Bool)
    (shapes : (v : Values) → P v → IsShaped shape v) (buckets : Buckets) (name : Text)
    (b : TimeBucket Key Values) (now : ℤ) (found : lookup name buckets ≡ some b)
    (readable : IsReadable P b now) where
  get_stats-Reports :
      {G : Type 0} ⦃e : Eq G⦄ (of : Key → G) (slots : Values → G) (named : Slots → Slots)
      → ((p : G) → HasOneGroup of p (live_keys b now) (groupby of (live_keys b now)))
      → ((g : List Key)
          → All (IsFound P (read_at b now)) g
          → IsGroup of g
          → IsNamed of slots (group_sum fl named (read_at b now) now) g)
      → (ws : List Values) × ((get_stats fl named (groupby of) buckets name now).1 ≡ (ws, ok tt))
        × ((p : G)
            → Reports
                (group_sum fl named (read_at b now) now)
                (one_group of p (live_keys b now))
                (select slots p ws))
  unfolding group_sums
  get_stats-Reports of slots named grouped sums =
      let (ws, done, reports) =
        for_each-Reports of slots (group_sum fl named (read_at b now) now)
          (groupby of (live_keys b now))
          (both (groupby of (live_keys b now))
            (groupby-All of (IsFound P (read_at b now)) (live_keys b now) (
              sorted-All (IsFound P (read_at b now)) key_before (keys (read_at b now).bucket)
                (keys-IsFound P (read_at b now) (AreOwned-expire P now b.bucket readable.owned))))
            (groupby-IsGroup of (live_keys b now))) in
      (
        ws,
        get_stats-eq fl named (groupby of) buckets name b now found
              (get_bucket-on_time b now none readable.kept
                (is_late-false now b.last_timestamp b.last_interval readable.on_time))
              (are_comparable-HasTexts (keys (expire now b.bucket).0)
                (HasTexts-expire now b.bucket readable.texts))
            ∙ done,
        λ p. rw (← grouped p) (reports p),
      )
    where
      both :
          (gs : List (List Key))
          → All (All (IsFound P (read_at b now))) gs
          → All (IsGroup of) gs
          → All (IsNamed of slots (group_sum fl named (read_at b now) now)) gs
      both [] h k = tt
      both (g ∷ gs) h k = (sums g h.0 k.0, both gs h.1 k.1)

  -- Where the records of a type stand under their own names, which are texts, have one shape, and the
  -- time is not too early: `get_stats_by_progname` raises nothing, and of the objects that it yields, those with the
  -- host and the program `p` are one, the sum of all live records of `p`, if there is such a record,
  -- and none otherwise.
  pub get_stats_by_progname-Reports :
      (ws : List Values) × ((get_stats_by_progname fl buckets name now).1 ≡ (ws, ok tt))
      × ((p : Option Text × Option Text)
          → Reports
              (group_sum fl (λ d. d) (read_at b now) now)
              (one_group program_of p (live_keys b now))
              (select (λ v. (v.host, v.plugin_instance)) p ws))
  unfolding get_stats_by_progname
  get_stats_by_progname-Reports =
      get_stats-Reports program_of (λ v. (v.host, v.plugin_instance)) (λ d. d)
        (λ p. (groups_of-groupby (keys (expire now b.bucket).0) p none).0)
        (program_sum-IsNamed fl P shape shapes (read_at b now) now)

  -- The same of `get_stats_by_hostname`, for each host.
  pub get_stats_by_hostname-Reports :
      (ws : List Values) × ((get_stats_by_hostname fl buckets name now).1 ≡ (ws, ok tt))
      × ((h : Option Text)
          → Reports
              (group_sum fl
                (λ d. record d { plugin_instance = some (text "host") })
                (read_at b now)
                now)
              (one_group host_of h (live_keys b now))
              (select (λ v. v.host) h ws))
  unfolding get_stats_by_hostname
  get_stats_by_hostname-Reports =
      get_stats-Reports host_of (λ v. v.host)
        (λ d. record d { plugin_instance = some (text "host") })
        (λ h. (groups_of-groupby (keys (expire now b.bucket).0) (none, none) h).1)
        (host_sum-IsNamed fl P shape shapes (read_at b now) now)
