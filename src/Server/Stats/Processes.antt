-- ===== src/Server/Stats/Processes.antt =====
-- server/receiver.py: the number of processes of each program.
use sqlalchemy_collectd.Base.{
  ℕ, zero, suc, true, Option, some, List, [], ◌∷◌, ◌≡◌, ◌≢◌, refl, sym, ◌∙◌, ap, map, nat_eq,
  list_eq, option_eq, pair_eq, ℤ, pos, ◌+ℤ◌, ◌≤ℤ◌, ok, inl, inr, ◌⊎◌, Bool-cases, All, length,
  arith,
}
use sqlalchemy_collectd.Base.Dict.{Dict, lookup, keys}
use sqlalchemy_collectd.Base.Sorting.Groups.{
  select, occurs, sorted-select, select-absent, select-present, select-All, sorted-All,
}
use sqlalchemy_collectd.Number.{int, Floats}
use sqlalchemy_collectd.Protocol.Bytes.{Text}
use sqlalchemy_collectd.Protocol.Values.{Values, build, int_of}
use sqlalchemy_collectd.Protocol.Values.Columns.{ints, nth, column, HasRows, sum-columns}
use sqlalchemy_collectd.CollectdTypes.{process_name}
use sqlalchemy_collectd.Stream.TimeBucket.{Entry, TimeBucket, scaled, expire}
use sqlalchemy_collectd.Server.Receiver.{Key, Receiver, key_of, key_before, program_of, new}
use sqlalchemy_collectd.Server.Receiver.Records.{
  AreOwned, IsFound, AreRecords, AreRecords-All, AreOwned-expire, keys-IsFound,
}
use mathlib.Core.Path.{subst}
use sqlalchemy_collectd.Server.Receiver.Keys.{HasTexts}
use sqlalchemy_collectd.Server.Receiver.Ownership.{
  FitsType, lookup-InOrder, receive_each, receive_each-AreInOrder, new-AreInOrder,
}
use sqlalchemy_collectd.Server.Stats.{group_sum, get_stats_by_progname}
use sqlalchemy_collectd.Server.Stats.Groups.{Reports, one_group, live_keys, read_at}
use sqlalchemy_collectd.Server.Stats.Reports.{group_sum-HasSum, get_stats_by_progname-Reports}

-- one process
abbrev IsOne : Values → Type 0
IsOne v = v.values ≡ some (int (pos 1) ∷ [])

-- Only the receiver itself makes objects of the process type, and all have texts for their names.
abbrev Asks : Text → Values → Type 0
Asks name v = (name ≡ process_name → IsOne v) × HasTexts (key_of v)

abbrev ones : {A : Type 0} → List A → List (List ℤ)
ones = map (λ _. pos 1 ∷ [])

HasRows-ones : (vs : List Values) → All IsOne vs → HasRows 1 vs (ones vs)
HasRows-ones [] h = tt
HasRows-ones (v ∷ vs) h = (h.0, refl, HasRows-ones vs h.1)

column-ones : {A : Type 0} (vs : List A) → column 0 (ones vs) ≡ pos (length vs)
unfolding ◌+ℤ◌
column-ones [] = refl
column-ones (v ∷ vs) = rw (column-ones vs) (ground arith)

AreRecords-length :
    (P : Values → Type 0) (ks : List Key) (vs : List Values)
    → AreRecords P ks vs
    → length vs ≡ length ks
AreRecords-length P [] [] h = refl
AreRecords-length P [] (v ∷ vs) h = absurd h
AreRecords-length P (k ∷ ks) [] h = absurd h
AreRecords-length P (k ∷ ks) (v ∷ vs) h = ap suc (AreRecords-length P ks vs h.2)

module _ (fl : Floats) (b : TimeBucket Key Values) (now : ℤ) where
  -- The sum of the records of some processes is their number.
  group_sum-ones :
      (k : Key) (ks : List Key)
      → All (IsFound IsOne b) (k ∷ ks)
      → (w : Values) × (group_sum fl (λ d. d) b now (k ∷ ks) ≡ ok w)
        × (w.values ≡ some (int (pos (length (k ∷ ks))) ∷ []))
  unfolding build
  group_sum-ones k ks found =
      let s =
        group_sum-HasSum fl IsOne (true ∷ []) (λ v h. (_, h, (tt, tt))) b now (λ d. d) k ks found in
      let vs = s.first ∷ s.others in
      let (w, zs, done, held, size, places) =
        sum-columns fl 1 s.first s.others (ones vs)
          (HasRows-ones vs (AreRecords-All IsOne (k ∷ ks) vs s.records)) in
      let n : length vs ≡ length (k ∷ ks) = AreRecords-length IsOne (k ∷ ks) vs s.records in
      let same : ok s.total ≡ ok w = sym s.summed ∙ done in
      let total : s.total ≡ w = cc in
      (
        _,
        s.reported,
        ap (λ u. u.values) total
            ∙ held
            ∙ ap some (single zs size (places 0 ∙ column-ones vs ∙ ap pos n)),
      )
    where
      single : {n : ℕ} (zs : List ℤ) → length zs ≡ 1 → nth 0 zs ≡ pos n → ints zs ≡ int (pos n) ∷ []
      single [] h e = absurd (omega arith)
      single (z ∷ []) h e = ap (λ t. int t ∷ []) e
      single (z ∷ y ∷ zs) h e = absurd (omega arith)

-- what the objects of a program say, if it has so many processes
abbrev pub Counts : ℕ → List Values → Type 0
Counts zero ws = ws ≡ []
Counts (suc n) ws = (w : Values) × (ws ≡ w ∷ []) × (w.values ≡ some (int (pos (suc n)) ∷ []))

pub live_processes : Option Text × Option Text → TimeBucket Key Values → ℤ → ℕ
live_processes p b now = length (select program_of p (keys (expire now b.bucket).0))

-- The group of a program, if it has one, and its size.
one_group-cases :
    (p : Option Text × Option Text) (live : List Key)
    → ((one_group program_of p live ≡ []) × (select program_of p live ≡ []))
      ⊎ ((k : Key) × (ks : List Key) × (select program_of p live ≡ k ∷ ks)
          × (one_group program_of p live ≡ (k ∷ ks) ∷ []))
one_group-cases p live = elim (Bool-cases (occurs program_of p live)) [
  | inl o ↦
      let (k, ks, e) = select-present program_of p live o in
      inr (k, ks, e, rw o (ap (λ g. g ∷ []) e))
  | inr o ↦ inl (rw o refl, select-absent program_of p live o)
]

Counts-Reports :
    (fl : Floats) (b : TimeBucket Key Values) (now : ℤ) (p : Option Text × Option Text)
    (live : List Key) (ws : List Values)
    → All (IsFound IsOne b) live
    → Reports (group_sum fl (λ d. d) b now) (one_group program_of p live) ws
    → Counts (length (select program_of p live)) ws
Counts-Reports fl b now p live ws found reports = elim (one_group-cases p live) [
  | inl (e, s) ↦ rw s (none_reported ws (rw e at reports))
  | inr (k, ks, s, e) ↦ rw s (
      one_reported k ks ws (rw s at (select-All program_of (IsFound IsOne b) p live found))
        (rw e at reports))
]
  where
    none_reported : (ws : List Values) → Reports (group_sum fl (λ d. d) b now) [] ws → ws ≡ []
    none_reported [] h = refl
    none_reported (w ∷ ws) h = absurd h

    one_reported :
        (k : Key) (ks : List Key) (ws : List Values)
        → All (IsFound IsOne b) (k ∷ ks)
        → Reports (group_sum fl (λ d. d) b now) ((k ∷ ks) ∷ []) ws
        → Counts (length (k ∷ ks)) ws
    one_reported k ks [] h r = absurd r
    one_reported k ks (w ∷ v ∷ ws) h r = absurd r.1
    one_reported k ks (w ∷ []) h r =
        let (u, done, n) = group_sum-ones fl b now k ks h in
        let q : ok u ≡ ok w = sym done ∙ r.0 in
        let same : u ≡ w = cc in (w, refl, ap (λ v. v.values) (sym same) ∙ n)

module _ (fl : Floats) (vs : List Values) (r : Receiver) (b : TimeBucket Key Values) (now : ℤ) where
  -- After any objects that are not of the process type and have a text each for host, program and
  -- process, received in any order by a new receiver, and at a time that is not too early for the bucket of the processes: `get_stats_by_progname` of the
  -- process type raises nothing, and it yields for each program one object, which holds the number
  -- of the processes of the program whose records there are not too old, or no object if there is none.
  pub get_stats_by_progname-Counts :
      new ≡ ok r
      → All (λ v. v.type ≢ some process_name) vs
      → All (λ v. HasTexts (key_of v)) vs
      → lookup process_name (receive_each vs r).buckets ≡ some b
      → int_of b.last_timestamp ≤ℤ int_of now +ℤ scaled b.last_interval
      → (ws : List Values) × ((get_stats_by_progname fl
            (receive_each vs r).buckets
            process_name
            now).1
          ≡ (ws, ok tt))
        × ((p : Option Text × Option Text)
            → Counts (live_processes p b now) (select (λ v. (v.host, v.plugin_instance)) p ws))
  unfolding live_processes
  get_stats_by_progname-Counts started others texts found on_time =
      let (kept, owned) =
        lookup-InOrder Asks process_name (receive_each vs r).buckets
          (receive_each-AreInOrder Asks (λ n v asked. unfold build in ((λ e. refl), asked.1)) vs r
            (fits vs others texts) (new-AreInOrder Asks started))
          found in
      let ones_owned : AreOwned IsOne b.bucket = only b.bucket owned in
      let (ws, done, reports) =
        get_stats_by_progname-Reports fl IsOne (true ∷ []) (λ v h. (_, h, (tt, tt)))
          (receive_each vs r).buckets process_name b now found
          (record {
            kept = kept;
            owned = ones_owned;
            texts = named b.bucket owned;
            on_time = on_time;
          }) in
      (
        ws,
        done,
        λ p. rw (← sorted-select program_of key_before p (keys (expire now b.bucket).0)) (
            Counts-Reports fl (read_at b now) now p (live_keys b now)
              (select (λ v. (v.host, v.plugin_instance)) p ws)
              (sorted-All (IsFound IsOne (read_at b now)) key_before (keys (read_at b now).bucket) (
                keys-IsFound IsOne (read_at b now) (AreOwned-expire IsOne now b.bucket ones_owned)))
              (reports p)),
      )
    where
      fits :
          (vs : List Values)
          → All (λ v. v.type ≢ some process_name) vs
          → All (λ v. HasTexts (key_of v)) vs
          → All (FitsType Asks) vs
      fits [] h texts = tt
      fits (v ∷ vs) h texts =
          ((λ n e. ((λ q. absurd (h.0 (e ∙ ap some q))), texts.0)), fits vs h.1 texts.1)

      only : (d : Dict Key (Entry Values)) → AreOwned (Asks process_name) d → AreOwned IsOne d
      only [] h = tt
      only ((k, x) ∷ d) h = (h.0, h.1.0 refl, only d h.2)

      named : (d : Dict Key (Entry Values)) → AreOwned (Asks process_name) d → All HasTexts (keys d)
      named [] h = tt
      named ((k, x) ∷ d) h = (subst HasTexts h.0 h.1.1, named d h.2)
