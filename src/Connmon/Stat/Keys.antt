-- ===== src/Connmon/Stat/Keys.antt =====
-- connmon/stat.py: the names of the objects are the keys that they are stored at.
use sqlalchemy_collectd.Base.{
  true, Option, none, some, List, [], ◌∷◌, ◌≡◌, refl, ◌∙◌, ℤ, Result, ok, raise, stuck, Bool-cases,
  inl, inr, arith, nat_eq, list_eq, pair_eq, ◌==◌,
}
use sqlalchemy_collectd.Base.Dict.{
  Dict, lookup, insert, remove, contains, contains-insert, contains-remove,
}
use sqlalchemy_collectd.Protocol.Bytes.{Text}
use sqlalchemy_collectd.Connmon.HostProg
use sqlalchemy_collectd.Connmon.HostProg.{
  Arithmetic, HostProg, kill_processes, Updater, numprocs, checkedout, connections, connects,
  checkouts, update, update_process_count, update_checkedout, update_connection_count,
  update_total_connects, update_total_checkouts, update_rate, updater_of,
}
use sqlalchemy_collectd.Connmon.Stat
use sqlalchemy_collectd.Connmon.Stat.{
  Stat, Message, marked, apply_updater, apply_message, first_value, or_new, get_at, get_hostprog,
  put_at, put_hostprog, program_of, receive, age, delete, then_rest, process_hostprogs,
  update_host_stats, is_older, Step, message, round, step, run,
}
use sqlalchemy_collectd.Connmon.Stat.Ageing.{AreKeyed, AgesTo, process_hostprogs-lookup}

module _ {N : Type 0} (ar : Arithmetic N) where
  abbrev SameNames : HostProg N → HostProg N → Type 0
  SameNames h h' = (h'.hostname ≡ h.hostname) × (h'.progname ≡ h.progname)

  update-SameNames :
      (u : Updater) (t i : ℤ) (n : N) (h : HostProg N) → SameNames h (update ar u t i n h).0
  unfolding update update_process_count update_checkedout update_connection_count
      update_total_connects update_total_checkouts update_rate
  update-SameNames numprocs t i n h = (refl, refl)
  update-SameNames checkedout t i n h = (refl, refl)
  update-SameNames connections t i n h = (refl, refl)
  update-SameNames connects t i n h = ground arith
  update-SameNames checkouts t i n h = ground arith

  apply_updater-SameNames :
      (o : Option Updater) (x : Result N) (m : Message N) (h : HostProg N)
      → SameNames h (apply_updater ar o x m h).0
  unfolding apply_updater
  apply_updater-SameNames none x m h = (refl, refl)
  apply_updater-SameNames (some u) (ok x) m h =
      marks (update ar u m.time m.interval x h) (update-SameNames u m.time m.interval x h)
    where
      marks : (r : HostProg N × Result (Unit {0})) → SameNames h r.0 → SameNames h (marked ar m r).0
      marks (h', ok _) same = same
      marks (h', raise e) same = same
      marks (h', stuck) same = same
  apply_updater-SameNames (some u) (raise e) m h = (refl, refl)
  apply_updater-SameNames (some u) stuck m h = (refl, refl)

  insert-AreKeyed :
      (k : Text × Text) (h : HostProg N) (d : Dict (Text × Text) (HostProg N))
      → h.hostname ≡ k.0
      → h.progname ≡ some k.1
      → AreKeyed ar d
      → AreKeyed ar (insert k h d)
  insert-AreKeyed k h [] host prog keyed = (refl, host, prog, tt)
  insert-AreKeyed k h ((j, x) ∷ d) host prog keyed = elim (Bool-cases (j == k)) [
    | inl same ↦ rw same (keyed.0, host ∙ (names j k same).0, prog ∙ (names j k same).1, keyed.3)
    | inr other ↦ rw other (
      ground (
        arith,
        contains-insert k j h d,
        other,
        keyed.0,
        (pair_eq {A = Text} {B = Text}).beq_iff k j,
        (pair_eq {A = Text} {B = Text}).beq_iff j k,
      ),
      keyed.1,
      keyed.2,
      insert-AreKeyed k h d host prog keyed.3,
    )
  ]
    where
      names : (j k : Text × Text) → (j == k) ≡ true → (k.0 ≡ j.0) × (some k.1 ≡ some j.1)
      names j k same = ground (arith, (pair_eq {A = Text} {B = Text}).beq_iff j k, same)

  remove-AreKeyed :
      (k : Text × Text) (d : Dict (Text × Text) (HostProg N))
      → AreKeyed ar d
      → AreKeyed ar (remove k d)
  remove-AreKeyed k [] keyed = tt
  remove-AreKeyed k ((j, x) ∷ d) keyed =
      ground (arith, keyed, contains-remove k j d, remove-AreKeyed k d keyed.3)

  or_new-names :
      (k : Text × Text) (d : Dict (Text × Text) (HostProg N))
      → AreKeyed ar d
      → ((or_new ar k.0 (some k.1) (lookup k d)).hostname ≡ k.0)
        × ((or_new ar k.0 (some k.1) (lookup k d)).progname ≡ some k.1)
  unfolding or_new HostProg.new
  or_new-names k [] keyed = (refl, refl)
  or_new-names k ((j, h) ∷ d) keyed = elim (Bool-cases (j == k)) [
    | inl same ↦ rw same (ground (arith, keyed, (pair_eq {A = Text} {B = Text}).beq_iff j k, same))
    | inr other ↦ rw other (or_new-names k d keyed.3)
  ]

  receive-AreKeyed :
      (host : Text) (p : Option Text) (f : HostProg N → HostProg N) (s : Stat N)
      → ((h : HostProg N) → SameNames h (f h))
      → AreKeyed ar s.hostprogs
      → AreKeyed ar (put_at ar host p (f (get_at ar host p s)) s).hostprogs
  unfolding put_at get_at
  receive-AreKeyed host none f s same keyed = keyed
  receive-AreKeyed host (some p) f s same keyed =
      let h = or_new ar host (some p) (lookup (host, p) s.hostprogs) in
      let (of_host, of_prog) = or_new-names (host, p) s.hostprogs keyed in
      insert-AreKeyed (host, p) (f h) s.hostprogs ((same h).0 ∙ of_host) ((same h).1 ∙ of_prog)
        keyed

  delete-AreKeyed :
      (host : Text) (p : Option Text) (d : Dict (Text × Text) (HostProg N))
      → AreKeyed ar d
      → AreKeyed ar (delete ar host p d).0
  unfolding delete
  delete-AreKeyed host none d keyed = keyed
  delete-AreKeyed host (some p) d keyed = elim (Bool-cases (contains (host, p) d)) [
    | inl here ↦ rw here (remove-AreKeyed (host, p) d keyed)
    | inr absent ↦ rw absent keyed
  ]

  then_rest-AreKeyed :
      (f : Dict (Text × Text) (HostProg N) → Dict (Text × Text) (HostProg N) × Result (Unit {0}))
      → ((d : Dict (Text × Text) (HostProg N)) → AreKeyed ar d → AreKeyed ar (f d).0)
      → (r : Dict (Text × Text) (HostProg N) × Result (Unit {0})) → AreKeyed ar r.0
      → AreKeyed ar (then_rest ar f r).0
  then_rest-AreKeyed f keeps (d, ok _) keyed = keeps d keyed
  then_rest-AreKeyed f keeps (d, raise e) keyed = keyed
  then_rest-AreKeyed f keeps (d, stuck) keyed = keyed

  age-AreKeyed :
      (now : ℤ) (items d : Dict (Text × Text) (HostProg N))
      → AreKeyed ar items
      → AreKeyed ar d
      → AreKeyed ar (age ar now items d).0
  unfolding age kill_processes
  age-AreKeyed now [] d ki keyed = keyed
  age-AreKeyed now ((k, h) ∷ items) d ki keyed = elim (Bool-cases (is_older ar 5 now h)) [
    | inl old ↦ rw old (
        then_rest-AreKeyed (age ar now items) (λ d'. age-AreKeyed now items d' ki.3)
          (delete ar h.hostname h.progname d) (delete-AreKeyed h.hostname h.progname d keyed))
    | inr young ↦ rw young (elim (Bool-cases (is_older ar 2 now h)) [
      | inl silent ↦ rw silent (
          age-AreKeyed now items (insert k (kill_processes ar h) d) ki.3
            (insert-AreKeyed k (kill_processes ar h) d ki.1 ki.2 keyed))
      | inr live ↦ rw live (age-AreKeyed now items d ki.3 keyed)
    ])
  ]

  step-AreKeyed :
      (x : Step N) (s : Stat N) → AreKeyed ar s.hostprogs → AreKeyed ar (step ar x s).hostprogs
  unfolding step receive apply_message get_hostprog put_hostprog process_hostprogs update_host_stats
  step-AreKeyed (message m) s keyed =
      receive-AreKeyed m.host (program_of ar m.plugin_instance) (λ h. (apply_message ar m h).0) s
        (λ h. apply_updater-SameNames (updater_of m.type_instance) (first_value ar m.values) m h)
        keyed
  step-AreKeyed (round now) s keyed = age-AreKeyed now s.hostprogs s.hostprogs keyed keyed

  run-AreKeyed :
      (xs : List (Step N)) (s : Stat N)
      → AreKeyed ar s.hostprogs
      → AreKeyed ar (run ar xs s).hostprogs
  unfolding run
  run-AreKeyed [] s keyed = keyed
  run-AreKeyed (x ∷ xs) s keyed = run-AreKeyed xs (step ar x s) (step-AreKeyed x s keyed)

  -- After any messages and rounds, the next round of `_process_hostprogs` raises nothing, and it leaves
  -- of each program: nothing, if its last message is older than five of its intervals; the same with
  -- its four counts at 0, if it is older than two of them; and else what was there.
  pub process_hostprogs-run :
      (xs : List (Step N)) (now : ℤ) (k : Text × Text)
      → ((process_hostprogs ar now (run ar xs (Stat.new ar))).1 ≡ ok tt)
        × AgesTo ar now
            (lookup k (run ar xs (Stat.new ar)).hostprogs)
            (lookup k (process_hostprogs ar now (run ar xs (Stat.new ar))).0.hostprogs)
  process_hostprogs-run xs now k =
      process_hostprogs-lookup ar now (run ar xs (Stat.new ar)) k
        (run-AreKeyed xs (Stat.new ar) (unfold Stat.new in tt))
