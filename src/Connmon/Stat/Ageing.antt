-- ===== src/Connmon/Stat/Ageing.antt =====
-- connmon/stat.py: what a round of `_process_hostprogs` leaves of the programs.
use sqlalchemy_collectd.Base.{
  true, false, Option, none, some, [], ◌∷◌, ◌≡◌, refl, ℤ, ok, Bool-cases, inl, inr, arith, nat_eq,
  list_eq, pair_eq, pos, ℕ, ltb_ℤ, ◌+ℤ◌, ◌-ℤ◌, ◌*ℤ◌, ◌<ℤ◌, ◌≤ℤ◌, +ℤ_parts, -ℤ_parts, ◌==◌,
  if◌then◌else◌, beq_refl,
}
use sqlalchemy_collectd.Base.Dict.{
  Dict, lookup, insert, remove, contains, lookup-insert, lookup-remove, contains-insert,
  contains-remove,
}
use sqlalchemy_collectd.Protocol.Bytes.{Text}
use sqlalchemy_collectd.Protocol.Values.{of_seconds}
use sqlalchemy_collectd.Connmon.HostProg.{Arithmetic, HostProg, kill_processes}
use sqlalchemy_collectd.Connmon.Stat.{
  Stat, age, delete, process_hostprogs, update_host_stats, is_older,
}

module _ {N : Type 0} (ar : Arithmetic N) where
  -- No key stands twice, and each object has the names of its key.
  abbrev pub AreKeyed : Dict (Text × Text) (HostProg N) → Type 0
  AreKeyed [] = Unit {0}
  AreKeyed ((k, h) ∷ d) =
      (contains k d ≡ false) × (h.hostname ≡ k.0) × (h.progname ≡ some k.1) × AreKeyed d

  abbrev outcome : ℤ → Option (HostProg N) → Option (HostProg N) → Option (HostProg N)
  outcome now none found = found
  outcome now (some h) found =
      if is_older ar 5 now h
      then none
      else if is_older ar 2 now h
      then some (kill_processes ar h)
      else found

  -- dropped, with its counts set to 0, or as it was
  abbrev aged : ℤ → Option (HostProg N) → Option (HostProg N)
  aged now found = outcome now found found

  not_found :
      (k j : Text × Text) (d : Dict (Text × Text) (HostProg N))
      → contains k d ≡ false
      → (k == j) ≡ true
      → lookup j d ≡ none
  not_found k j [] c same = refl
  not_found k j ((i, h) ∷ d) c same = ground (
    arith,
    (pair_eq {A = Text} {B = Text}).beq_iff k j,
    (pair_eq {A = Text} {B = Text}).beq_iff i k,
    (pair_eq {A = Text} {B = Text}).beq_iff i j,
    not_found k j d,
  )

  distinct_keys :
      (k j : Text × Text) (d : Dict (Text × Text) (HostProg N))
      → contains k d ≡ false
      → contains j d ≡ true
      → (k == j) ≡ false
  distinct_keys k j [] c h = cc
  distinct_keys k j ((i, x) ∷ d) c h = ground (
    arith,
    (pair_eq {A = Text} {B = Text}).beq_iff k j,
    (pair_eq {A = Text} {B = Text}).beq_iff i k,
    (pair_eq {A = Text} {B = Text}).beq_iff i j,
    distinct_keys k j d,
  )

  delete-key :
      (k : Text × Text) (h : HostProg N) (d : Dict (Text × Text) (HostProg N))
      → h.hostname ≡ k.0
      → h.progname ≡ some k.1
      → contains k d ≡ true
      → delete ar h.hostname h.progname d ≡ (remove k d, ok tt)
  unfolding delete
  delete-key k h d host prog c = rw (host, prog, c) refl

  first_key :
      (k : Text × Text) (h : HostProg N) (d : Dict (Text × Text) (HostProg N))
      → contains k ((k, h) ∷ d) ≡ true
  first_key k h d = ground (arith, beq_refl {A = Text × Text} k)

  age-lookup :
      (now : ℤ) (items d : Dict (Text × Text) (HostProg N))
      → AreKeyed items
      → ((j : Text × Text) → contains j items ≡ true → contains j d ≡ true)
      → ((age ar now items d).1 ≡ ok tt)
        × ((j : Text × Text)
            → lookup j (age ar now items d).0 ≡ outcome now (lookup j items) (lookup j d))
  unfolding age
  age-lookup now [] d keyed sub = (refl, λ j. refl)
  age-lookup now ((k, h) ∷ items) d keyed sub = elim (Bool-cases (is_older ar 5 now h)) [
    | inl old ↦
        rw (old, delete-key k h d keyed.1 keyed.2 (sub k (first_key k h items)))
          (let (returns, looks) = age-lookup now items (remove k d) keyed.3 (λ j m. ground (
            arith,
            contains-remove k j d,
            distinct_keys k j items keyed.0 m,
            sub j (ground (arith, m)),
          )) in
            (
              returns,
              λ j. ground (arith, looks j, lookup-remove k j d, not_found k j items keyed.0, old),
            ))
    | inr young ↦ rw young (elim (Bool-cases (is_older ar 2 now h)) [
      | inl silent ↦ rw silent (
          let (returns, looks) =
            age-lookup now items (insert k (kill_processes ar h) d) keyed.3 (λ j m.
              ground
                (arith, contains-insert k j (kill_processes ar h) d, sub j (ground (arith, m)))) in
          (
            returns,
            λ j. ground (
              arith,
              looks j,
              lookup-insert k j (kill_processes ar h) d,
              not_found k j items keyed.0,
              young,
              silent,
            ),
          ))
      | inr live ↦ rw live (
          let (returns, looks) =
            age-lookup now items d keyed.3 (λ j m. sub j (ground (arith, m))) in
          (returns, λ j. ground (arith, looks j, not_found k j items keyed.0, young, live)))
    ])
  ]

  -- What a program is after a round, by the age of its last message: nothing, if that is more than
  -- five of its intervals; the same with its four counts at 0, if it is more than two; and else the
  -- same.
  abbrev pub AgesTo : ℤ → Option (HostProg N) → Option (HostProg N) → Type 0
  AgesTo now none later = later ≡ none
  AgesTo now (some h) later =
      (h.last_time +ℤ of_seconds (h.interval *ℤ pos 5) <ℤ now → later ≡ none)
      × (now ≤ℤ h.last_time +ℤ of_seconds (h.interval *ℤ pos 5)
          → h.last_time +ℤ of_seconds (h.interval *ℤ pos 2) <ℤ now
          → later
            ≡ some (record h {
              process_count = some ar.zero;
              connection_count = some ar.zero;
              checkout_count = some ar.zero;
              checkouts_per_second = some ar.zero;
            }))
      × (now ≤ℤ h.last_time +ℤ of_seconds (h.interval *ℤ pos 5)
          → now ≤ℤ h.last_time +ℤ of_seconds (h.interval *ℤ pos 2)
          → later ≡ some h)

  is_older-true :
      (n : ℕ) (now : ℤ) (h : HostProg N)
      → h.last_time +ℤ of_seconds (h.interval *ℤ pos n) <ℤ now
      → is_older ar n now h ≡ true
  unfolding is_older
  is_older-true n now h late = test now h.last_time (of_seconds (h.interval *ℤ pos n)) late
    where
      test : (a b s : ℤ) → b +ℤ s <ℤ a → ltb_ℤ s (a -ℤ b) ≡ true
      test a b s h = ground (arith, +ℤ_parts b s, -ℤ_parts a b)

  is_older-false :
      (n : ℕ) (now : ℤ) (h : HostProg N)
      → now ≤ℤ h.last_time +ℤ of_seconds (h.interval *ℤ pos n)
      → is_older ar n now h ≡ false
  unfolding is_older
  is_older-false n now h early = test now h.last_time (of_seconds (h.interval *ℤ pos n)) early
    where
      test : (a b s : ℤ) → a ≤ℤ b +ℤ s → ltb_ℤ s (a -ℤ b) ≡ false
      test a b s h = ground (arith, +ℤ_parts b s, -ℤ_parts a b)

  aged-AgesTo : (now : ℤ) (found : Option (HostProg N)) → AgesTo now found (aged now found)
  unfolding kill_processes
  aged-AgesTo now none = refl
  aged-AgesTo now (some h) = (
    (λ old. rw (is_older-true 5 now h old) refl),
    (λ young silent. rw (is_older-false 5 now h young, is_older-true 2 now h silent) refl),
    (λ young live. rw (is_older-false 5 now h young, is_older-false 2 now h live) refl),
  )

  -- Where each program is stored under its own names, a round raises nothing, and it leaves of each
  -- program: nothing, if its last message is older than five of its intervals; its figures with the
  -- counts at 0, if it is older than two; and else what was there.
  pub process_hostprogs-lookup :
      (now : ℤ) (s : Stat N) (k : Text × Text)
      → AreKeyed s.hostprogs
      → ((process_hostprogs ar now s).1 ≡ ok tt)
        × AgesTo now (lookup k s.hostprogs) (lookup k (process_hostprogs ar now s).0.hostprogs)
  unfolding process_hostprogs update_host_stats
  process_hostprogs-lookup now s k keyed =
      let (returns, looks) = age-lookup now s.hostprogs s.hostprogs keyed (λ j m. m) in
      (returns, rw (looks k) (aged-AgesTo now (lookup k s.hostprogs)))
