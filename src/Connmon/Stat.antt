-- ===== src/Connmon/Stat.antt =====
-- connmon/stat.py: the figures of all programs and hosts, and their ageing.
pub mod Maxima
pub mod Ageing
pub mod Keys
use sqlalchemy_collectd.Base.{
  ℕ, suc, length, Bool, true, false, ◌||◌, Option, none, some, List, [], ◌∷◌, if◌then◌else◌, Eq,
  nat_eq, list_eq, pair_eq, ◌==◌, map, ℤ, pos, ◌-ℤ◌, ◌*ℤ◌, ltb_ℤ, Result, ok, raise, stuck,
  key_error, index_error, ◌>>=◌,
}
use sqlalchemy_collectd.Base.Dict.{Dict, lookup, insert, remove, contains, keys, values}
use sqlalchemy_collectd.Protocol.Bytes.{Text}
use sqlalchemy_collectd.Protocol.Values.{of_seconds}
use sqlalchemy_collectd.CollectdTypes.{text}
use sqlalchemy_collectd.Connmon.HostProg
use sqlalchemy_collectd.Connmon.HostProg.{
  Arithmetic, HostProg, max_of, Updater, updater_of, update, kill_processes,
}

-- What `receive_async` returns, as the unpacker makes it: all slots but the program are given.
pub record Message (N : Type 0) : Type 0 where
  pub host : Text
  pub plugin_instance : Option Text
  pub type_instance : Text
  pub time : ℤ
  pub interval : ℤ
  pub values : List N

pub record Stat (N : Type 0) : Type 0 where
  pub host_count : ℕ
  pub max_host_count : ℕ
  pub process_count : N
  pub max_process_count : N
  pub connection_count : N
  pub max_connections : N
  pub checkout_count : N
  pub max_checkedout : N
  pub checkouts_per_second : Option N
  pub hostprogs : Dict (Text × Text) (HostProg N)
  pub hosts : Dict Text (HostProg N)

-- `set(host for (host, prog) in hostprogs)`
abbrev distinct : List Text → List Text
distinct [] = []
distinct (x ∷ xs) = let rest = distinct xs in if has x xs then rest else x ∷ rest
  where
    has : Text → List Text → Bool
    has x [] = false
    has x (y ∷ ys) = y == x || has x ys

abbrev pub max_ℕ : ℕ → ℕ → ℕ
max_ℕ a b = if ltb_ℤ (pos a) (pos b) then b else a

module _ {N : Type 0} (ar : Arithmetic N) where
  unfoldable pub new : Stat N
  new = record {
    host_count = 0;
    max_host_count = 0;
    process_count = ar.zero;
    max_process_count = ar.zero;
    connection_count = ar.zero;
    max_connections = ar.zero;
    checkout_count = ar.zero;
    max_checkedout = ar.zero;
    checkouts_per_second = none;
    hostprogs = [];
    hosts = [];
  }

  -- `sum(f(h) for h in hostprogs if f(h) is not None)`
  unfoldable pub sum_of : N → (HostProg N → Option N) → List (HostProg N) → N
  sum_of total f [] = total
  sum_of total f (h ∷ hs) = sum_of (elim (f h) [ none ↦ total | some n ↦ ar.add total n ]) f hs

  abbrev pub total : (HostProg N → Option N) → Stat N → N
  total f s = sum_of ar.zero f (values s.hostprogs)

  -- the hosts that have a program
  abbrev pub count_hosts : Stat N → ℕ
  count_hosts s = length (distinct (map (λ e. e.0.0) s.hostprogs))

  unfoldable pub update_host_stats : Stat N → Stat N
  unfolding sum_of
  update_host_stats s = record s {
    host_count = count_hosts s;
    process_count = total (λ h. h.process_count) s;
    connection_count = total (λ h. h.connection_count) s;
    checkout_count = total (λ h. h.checkout_count) s;
    checkouts_per_second = some (total (λ h. h.checkouts_per_second) s);
    max_host_count = max_ℕ s.max_host_count (count_hosts s);
    max_process_count = max_of ar s.max_process_count (total (λ h. h.process_count) s);
    max_checkedout = max_of ar s.max_checkedout (total (λ h. h.checkout_count) s);
    max_connections = max_of ar s.max_connections (total (λ h. h.connection_count) s);
  }

  -- Where a message goes: `none` is the figures of a host.
  unfoldable pub program_of : Option Text → Option Text
  program_of none = none
  program_of (some p) = if p == text "host" then none else some p

  unfoldable pub or_new : Text → Option Text → Option (HostProg N) → HostProg N
  or_new host p none = HostProg.new ar host p
  or_new host p (some h) = h

  unfoldable pub get_at : Text → Option Text → Stat N → HostProg N
  unfolding or_new
  get_at host none s = or_new host none (lookup host s.hosts)
  get_at host (some p) s = or_new host (some p) (lookup (host, p) s.hostprogs)

  unfoldable pub get_hostprog : Text → Option Text → Stat N → HostProg N
  unfolding program_of get_at
  get_hostprog host progname = get_at host (program_of progname)

  -- The objects of the dictionaries are changed in place: a changed object is stored where it was, or
  -- where `_get_hostprog` has put the new one.
  unfoldable pub put_at : Text → Option Text → HostProg N → Stat N → Stat N
  put_at host none h s = record s { hosts = insert host h s.hosts }
  put_at host (some p) h s = record s { hostprogs = insert (host, p) h s.hostprogs }

  unfoldable pub put_hostprog : Text → Option Text → HostProg N → Stat N → Stat N
  unfolding program_of put_at
  put_hostprog host progname = put_at host (program_of progname)

  unfoldable pub first_value : List N → Result N
  first_value [] = raise index_error
  first_value (x ∷ xs) = ok x

  abbrev pub marked : Message N → HostProg N × Result (Unit {0}) → HostProg N × Result (Unit {0})
  marked m (h, ok _) = (record h { interval = m.interval; last_time = m.time }, ok tt)
  marked m (h, raise e) = (h, raise e)
  marked m (h, stuck) = (h, stuck)

  unfoldable pub apply_updater :
      Option Updater → Result N → Message N → HostProg N → HostProg N × Result (Unit {0})
  apply_updater none x m h = (h, ok tt)
  apply_updater (some u) (ok x) m h = marked m (update ar u m.time m.interval x h)
  apply_updater (some u) (raise e) m h = (h, raise e)
  apply_updater (some u) stuck m h = (h, stuck)

  -- what `_update` does with the object
  unfoldable pub apply_message : Message N → HostProg N → HostProg N × Result (Unit {0})
  unfolding apply_updater first_value
  apply_message m h = apply_updater (updater_of m.type_instance) (first_value m.values) m h

  -- `_update`, with a message. An exception is logged by `_wrap_update`, which goes on.
  unfoldable pub receive : Message N → Stat N → Stat N × Result (Unit {0})
  unfolding get_hostprog put_hostprog apply_message
  receive m s =
      let (h, r) = apply_message m (get_hostprog m.host m.plugin_instance s) in
      (put_hostprog m.host m.plugin_instance h s, r)

  -- `now - last_time > interval * n`
  unfoldable pub is_older : ℕ → ℤ → HostProg N → Bool
  is_older n now h = ltb_ℤ (of_seconds (h.interval *ℤ pos n)) (now -ℤ h.last_time)

  -- `del self.hostprogs[(hostname, progname)]`
  unfoldable pub delete :
      Text
      → Option Text
      → Dict (Text × Text) (HostProg N)
      → Dict (Text × Text) (HostProg N) × Result (Unit {0})
  delete host none d = (d, raise key_error)
  delete host (some p) d =
      if contains (host, p) d then (remove (host, p) d, ok tt) else (d, raise key_error)

  abbrev pub then_rest :
      (Dict (Text × Text) (HostProg N) → Dict (Text × Text) (HostProg N) × Result (Unit {0}))
      → Dict (Text × Text) (HostProg N) × Result (Unit {0})
      → Dict (Text × Text) (HostProg N) × Result (Unit {0})
  then_rest f (d, ok _) = f d
  then_rest f (d, raise e) = (d, raise e)
  then_rest f (d, stuck) = (d, stuck)

  -- The loop over `list(self.hostprogs.values())`, here with the keys that the objects are stored at.
  unfoldable pub age :
      ℤ
      → Dict (Text × Text) (HostProg N)
      → Dict (Text × Text) (HostProg N)
      → Dict (Text × Text) (HostProg N) × Result (Unit {0})
  unfolding delete is_older
  age now [] d = (d, ok tt)
  age now ((k, h) ∷ items) d =
      if is_older 5 now h
      then then_rest (age now items) (delete h.hostname h.progname d)
      else age now items (if is_older 2 now h then insert k (kill_processes ar h) d else d)

  -- one round of `_process_hostprogs` at a time; an exception ends the task
  unfoldable pub process_hostprogs : ℤ → Stat N → Stat N × Result (Unit {0})
  unfolding update_host_stats age
  process_hostprogs now s =
      let s' = update_host_stats s in
      let (d, r) = age now s'.hostprogs s'.hostprogs in (record s' { hostprogs = d }, r)

-- What the two tasks do, one at a time.
pub data Step (N : Type 0) : Type 0 where
  message : Message N → Step N
  round : ℤ → Step N

module _ {N : Type 0} (ar : Arithmetic N) where
  unfoldable pub step : Step N → Stat N → Stat N
  unfolding receive process_hostprogs
  step (message m) s = (receive ar m s).0
  step (round now) s = (process_hostprogs ar now s).0

  unfoldable pub run : List (Step N) → Stat N → Stat N
  unfolding step
  run [] s = s
  run (x ∷ xs) s = run xs (step x s)
