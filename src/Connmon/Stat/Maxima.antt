-- ===== src/Connmon/Stat/Maxima.antt =====
-- connmon/stat.py: the maxima against the counts.
use sqlalchemy_collectd.Base.{
  ℕ, ◌≤◌, false, Option, none, some, List, [], ◌∷◌, ◌≡◌, ℤ, ok, Result, raise, stuck, Bool-cases,
  inl, inr, arith, nat_eq, list_eq, pair_eq, Eq, ◌==◌,
}
use sqlalchemy_collectd.Base.Dict.{Dict, lookup, insert, remove}
use sqlalchemy_collectd.Protocol.Bytes.{Text}
use sqlalchemy_collectd.Connmon.HostProg
use sqlalchemy_collectd.Connmon.HostProg.{
  Arithmetic, HostProg, max_of, Updater, numprocs, checkedout, connections, connects, checkouts,
  update, update_process_count, update_checkedout, update_connection_count, update_total_connects,
  update_total_checkouts, update_rate, kill_processes, updater_of,
}
use sqlalchemy_collectd.Connmon.Stat
use sqlalchemy_collectd.Connmon.Stat.{
  Message, Stat, get_hostprog, put_hostprog, apply_message, apply_updater, first_value, receive,
  age, then_rest, or_new, get_at, put_at, apply_updater, delete, process_hostprogs,
  update_host_stats, Step, message, round, step, run, program_of, is_older,
}

max_ℕ-right : (a b : ℕ) → b ≤ Stat.max_ℕ a b
max_ℕ-right a b = ground arith

module _ {N : Type 0} (ar : Arithmetic N) where
  max_of-left : (a b : N) → ar.lt (max_of ar a b) a ≡ false
  max_of-left a b = ground (arith, ar.lt_irrefl a, ar.lt_asymm a b)

  max_of-right : (a b : N) → ar.lt (max_of ar a b) b ≡ false
  max_of-right a b = ground (arith, ar.lt_irrefl b)

  abbrev Bounds : N → Option N → Type 0
  Bounds max none = Unit {0}
  Bounds max (some n) = ar.lt max n ≡ false

  -- The maxima are not below zero and not below the counts.
  abbrev pub IsBounded : HostProg N → Type 0
  IsBounded h =
      (Bounds h.max_checkedout h.checkout_count
        × Bounds h.max_process_count h.process_count
        × Bounds h.max_connections h.connection_count)
      × ((ar.lt h.max_checkedout ar.zero ≡ false)
          × (ar.lt h.max_process_count ar.zero ≡ false)
          × (ar.lt h.max_connections ar.zero ≡ false))

  new-IsBounded : (host : Text) (p : Option Text) → IsBounded (HostProg.new ar host p)
  unfolding HostProg.new
  new-IsBounded host p =
      ((tt, tt, tt), (ar.lt_irrefl ar.zero, ar.lt_irrefl ar.zero, ar.lt_irrefl ar.zero))

  kill_processes-IsBounded : (h : HostProg N) → IsBounded h → IsBounded (kill_processes ar h)
  unfolding kill_processes
  kill_processes-IsBounded h b = (b.1, b.1)

  update-IsBounded :
      (u : Updater) (t i : ℤ) (n : N) (h : HostProg N)
      → IsBounded h
      → IsBounded (update ar u t i n h).0
  unfolding update update_process_count update_checkedout update_connection_count
      update_total_connects update_total_checkouts update_rate
  update-IsBounded numprocs t i n h b = (
    (b.0.0, max_of-left n h.max_process_count, b.0.2),
    (
      b.1.0,
      ar.le_trans ar.zero h.max_process_count (max_of ar n h.max_process_count) b.1.1
          (max_of-right n h.max_process_count),
      b.1.2,
    ),
  )
  update-IsBounded checkedout t i n h b = (
    (max_of-right h.max_checkedout n, b.0.1, b.0.2),
    (
      ar.le_trans ar.zero h.max_checkedout (max_of ar h.max_checkedout n) b.1.0
          (max_of-left h.max_checkedout n),
      b.1.1,
      b.1.2,
    ),
  )
  update-IsBounded connections t i n h b = (
    (b.0.0, b.0.1, max_of-right h.max_connections n),
    (
      b.1.0,
      b.1.1,
      ar.le_trans ar.zero h.max_connections (max_of ar h.max_connections n) b.1.2
          (max_of-left h.max_connections n),
    ),
  )
  update-IsBounded connects t i n h b = ground (arith, b)
  update-IsBounded checkouts t i n h b = ground (arith, b)

  apply_updater-IsBounded :
      (o : Option Updater) (x : Result N) (m : Message N) (h : HostProg N)
      → IsBounded h
      → IsBounded (apply_updater ar o x m h).0
  unfolding apply_updater
  apply_updater-IsBounded none x m h b = b
  apply_updater-IsBounded (some u) (ok x) m h b =
      marked-IsBounded (update ar u m.time m.interval x h)
        (update-IsBounded u m.time m.interval x h b)
    where
      marked-IsBounded :
          (r : HostProg N × Result (Unit {0})) → IsBounded r.0 → IsBounded (Stat.marked ar m r).0
      marked-IsBounded (h, ok _) b = b
      marked-IsBounded (h, raise e) b = b
      marked-IsBounded (h, stuck) b = b
  apply_updater-IsBounded (some u) (raise e) m h b = b
  apply_updater-IsBounded (some u) stuck m h b = b

  abbrev AreBounded : {K : Type 0} → Dict K (HostProg N) → Type 0
  AreBounded [] = Unit {0}
  AreBounded ((k, h) ∷ d) = IsBounded h × AreBounded d

  module _ {K : Type 0} ⦃e : Eq K⦄ where
    lookup-IsBounded :
        (k : K) (d : Dict K (HostProg N)) (h : HostProg N)
        → AreBounded d
        → lookup k d ≡ some h
        → IsBounded h
    lookup-IsBounded k [] h b found = cc
    lookup-IsBounded k ((j, x) ∷ d) h b found = ground (arith, b, found, lookup-IsBounded k d h b.1)

    insert-AreBounded :
        (k : K) (h : HostProg N) (d : Dict K (HostProg N))
        → IsBounded h
        → AreBounded d
        → AreBounded (insert k h d)
    insert-AreBounded k h [] bh b = (bh, tt)
    insert-AreBounded k h ((j, x) ∷ d) bh b = ground (arith, insert-AreBounded k h d bh b.1)

    remove-AreBounded : (k : K) (d : Dict K (HostProg N)) → AreBounded d → AreBounded (remove k d)
    remove-AreBounded k [] b = tt
    remove-AreBounded k ((j, x) ∷ d) b = ground (arith, remove-AreBounded k d b.1)

  delete-AreBounded :
      (host : Text) (p : Option Text) (d : Dict (Text × Text) (HostProg N))
      → AreBounded d
      → AreBounded (delete ar host p d).0
  unfolding delete
  delete-AreBounded host none d b = b
  delete-AreBounded host (some p) d b = ground (arith, b, remove-AreBounded (host, p) d b)

  then_rest-AreBounded :
      (f : Dict (Text × Text) (HostProg N) → Dict (Text × Text) (HostProg N) × Result (Unit {0}))
      → ((d : Dict (Text × Text) (HostProg N)) → AreBounded d → AreBounded (f d).0)
      → (r : Dict (Text × Text) (HostProg N) × Result (Unit {0})) → AreBounded r.0
      → AreBounded (then_rest ar f r).0
  then_rest-AreBounded f keeps (d, ok _) b = keeps d b
  then_rest-AreBounded f keeps (d, raise e) b = b
  then_rest-AreBounded f keeps (d, stuck) b = b

  age-AreBounded :
      (now : ℤ) (items d : Dict (Text × Text) (HostProg N))
      → AreBounded items
      → AreBounded d
      → AreBounded (age ar now items d).0
  unfolding age
  age-AreBounded now [] d bi b = b
  age-AreBounded now ((k, h) ∷ items) d bi b = elim (Bool-cases (is_older ar 5 now h)) [
    | inl old ↦ rw old (
        then_rest-AreBounded (age ar now items) (λ d'. age-AreBounded now items d' bi.1)
          (delete ar h.hostname h.progname d) (delete-AreBounded h.hostname h.progname d b))
    | inr young ↦ rw young (elim (Bool-cases (is_older ar 2 now h)) [
      | inl silent ↦ rw silent (
          age-AreBounded now items (insert k (kill_processes ar h) d) bi.1
            (insert-AreBounded k (kill_processes ar h) d (kill_processes-IsBounded h bi.0) b))
      | inr live ↦ rw live (age-AreBounded now items d bi.1 b)
    ])
  ]

  -- The maxima of every program and host are not below its counts, nor those of all below the totals.
  pub record HaveMaxima (s : Stat N) : Type 0 where
    pub hostprogs_bounded : AreBounded s.hostprogs
    pub hosts_bounded : AreBounded s.hosts
    pub host_count_le : s.host_count ≤ s.max_host_count
    pub process_count_le : ar.lt s.max_process_count s.process_count ≡ false
    pub connection_count_le : ar.lt s.max_connections s.connection_count ≡ false
    pub checkout_count_le : ar.lt s.max_checkedout s.checkout_count ≡ false

  or_new-IsBounded :
      {K : Type 0} ⦃e : Eq K⦄ (host : Text) (p : Option Text) (k : K) (d : Dict K (HostProg N))
      → AreBounded d
      → IsBounded (or_new ar host p (lookup k d))
  unfolding or_new
  or_new-IsBounded host p k [] b = new-IsBounded host p
  or_new-IsBounded host p k ((j, h) ∷ d) b = elim (Bool-cases (j == k)) [
    | inl same ↦ rw same b.0
    | inr other ↦ rw other (or_new-IsBounded host p k d b.1)
  ]

  get_at-IsBounded :
      (host : Text) (p : Option Text) (s : Stat N) → HaveMaxima s → IsBounded (get_at ar host p s)
  unfolding get_at
  get_at-IsBounded host none s b = or_new-IsBounded host none host s.hosts b.hosts_bounded
  get_at-IsBounded host (some p) s b =
      or_new-IsBounded host (some p) (host, p) s.hostprogs b.hostprogs_bounded

  put_at-HaveMaxima :
      (host : Text) (p : Option Text) (h : HostProg N) (s : Stat N)
      → IsBounded h
      → HaveMaxima s
      → HaveMaxima (put_at ar host p h s)
  unfolding put_at
  put_at-HaveMaxima host none h s bh b = record {
    hostprogs_bounded = b.hostprogs_bounded;
    hosts_bounded = insert-AreBounded host h s.hosts bh b.hosts_bounded;
    host_count_le = b.host_count_le;
    process_count_le = b.process_count_le;
    connection_count_le = b.connection_count_le;
    checkout_count_le = b.checkout_count_le;
  }
  put_at-HaveMaxima host (some p) h s bh b = record {
    hostprogs_bounded = insert-AreBounded (host, p) h s.hostprogs bh b.hostprogs_bounded;
    hosts_bounded = b.hosts_bounded;
    host_count_le = b.host_count_le;
    process_count_le = b.process_count_le;
    connection_count_le = b.connection_count_le;
    checkout_count_le = b.checkout_count_le;
  }

  step-HaveMaxima : (x : Step N) (s : Stat N) → HaveMaxima s → HaveMaxima (step ar x s)
  unfolding step receive apply_message get_hostprog put_hostprog process_hostprogs update_host_stats
  step-HaveMaxima (message m) s b =
      put_at-HaveMaxima m.host (program_of ar m.plugin_instance)
        (apply_message ar m (get_hostprog ar m.host m.plugin_instance s)).0 s
        (apply_updater-IsBounded (updater_of m.type_instance) (first_value ar m.values) m
          (get_hostprog ar m.host m.plugin_instance s)
          (get_at-IsBounded m.host (program_of ar m.plugin_instance) s b))
        b
  step-HaveMaxima (round now) s b = record {
    hostprogs_bounded =
        age-AreBounded now s.hostprogs s.hostprogs b.hostprogs_bounded b.hostprogs_bounded;
    hosts_bounded = b.hosts_bounded;
    host_count_le = max_ℕ-right s.max_host_count (Stat.count_hosts ar s);
    process_count_le = max_of-right s.max_process_count (Stat.total ar (λ h. h.process_count) s);
    connection_count_le =
        max_of-right s.max_connections (Stat.total ar (λ h. h.connection_count) s);
    checkout_count_le = max_of-right s.max_checkedout (Stat.total ar (λ h. h.checkout_count) s);
  }

  HaveMaxima-run : (xs : List (Step N)) (s : Stat N) → HaveMaxima s → HaveMaxima (run ar xs s)
  unfolding run
  HaveMaxima-run [] s b = b
  HaveMaxima-run (x ∷ xs) s b = HaveMaxima-run xs (step ar x s) (step-HaveMaxima x s b)

  -- Whatever messages and rounds there were, those included that raise: the maxima of every program
  -- and of every host are not below its counts, and the maxima of all are not below the counts of all.
  pub run-HaveMaxima : (xs : List (Step N)) → HaveMaxima (run ar xs (Stat.new ar))
  unfolding Stat.new
  run-HaveMaxima xs = HaveMaxima-run xs (Stat.new ar) (record {
    hostprogs_bounded = tt;
    hosts_bounded = tt;
    host_count_le = omega arith;
    process_count_le = ar.lt_irrefl ar.zero;
    connection_count_le = ar.lt_irrefl ar.zero;
    checkout_count_le = ar.lt_irrefl ar.zero;
  })
