-- ===== src/Connmon/HostProg.antt =====
-- connmon/stat.py: the figures of one program on one host, and how a message updates them.
use sqlalchemy_collectd.Base.{
  Bool, true, false, ◌&&◌, not, Option, none, some, if◌then◌else◌, nat_eq, list_eq, int_eq, ◌==◌, ℤ,
  pos, ◌-ℤ◌, ltb_ℤ, ◌≡◌, Result, ok, raise, assertion_error, zero_division,
}
use sqlalchemy_collectd.Protocol.Bytes.{Text}
use sqlalchemy_collectd.Protocol.Values.{of_seconds}
use sqlalchemy_collectd.CollectdTypes.{text}

-- What the code does with the numbers of the messages, which are ints or floats. The laws are those
-- of numbers that are not NaN. `divide` divides by a difference of times.
pub record Arithmetic (N : Type 0) : Type 0 where
  pub zero : N
  pub lt : N → N → Bool
  pub add : N → N → N
  pub sub : N → N → N
  pub divide : N → ℤ → N
  pub lt_irrefl : (a : N) → lt a a ≡ false
  pub lt_asymm : (a b : N) → lt a b ≡ true → lt b a ≡ false
  pub le_trans : (a b c : N) → lt b a ≡ false → lt c b ≡ false → lt c a ≡ false

pub record HostProg (N : Type 0) : Type 0 where
  pub last_time : ℤ
  pub hostname : Text
  pub progname : Option Text
  pub checkout_count : Option N
  pub max_checkedout : N
  pub process_count : Option N
  pub max_process_count : N
  pub connection_count : Option N
  pub max_connections : N
  pub total_connects : Option N
  pub interval_connects : Option N
  pub total_checkouts : Option N
  pub last_checkouts : Option N
  pub interval_checkouts : Option N
  pub last_total_checkout_time : Option ℤ
  pub checkouts_per_second : Option N
  pub interval : ℤ

-- `if hostprog.last_total_checkout_time`: not None and not 0
abbrev pub is_set : Option ℤ → Bool
is_set none = false
is_set (some t) = not (t == pos 0)

abbrev pub or_zero : Option ℤ → ℤ
or_zero none = pos 0
or_zero (some z) = z

-- The functions of `_hostproc_updaters`; `none` where the name is not registered.
pub data Updater : Type 0 where
  numprocs checkedout connections connects checkouts : Updater

unfoldable pub updater_of : Text → Option Updater
updater_of name =
    if name == text "numprocs"
    then some numprocs
    else if name == text "checkedout"
    then some checkedout
    else if name == text "connections"
    then some connections
    else if name == text "connects"
    then some connects
    else if name == text "checkouts"
    then some checkouts
    else none

module _ {N : Type 0} (ar : Arithmetic N) where
  unfoldable pub new : Text → Option Text → HostProg N
  new hostname progname = record {
    last_time = pos 0;
    hostname = hostname;
    progname = progname;
    checkout_count = none;
    max_checkedout = ar.zero;
    process_count = none;
    max_process_count = ar.zero;
    connection_count = none;
    max_connections = ar.zero;
    total_connects = none;
    interval_connects = none;
    total_checkouts = none;
    last_checkouts = none;
    interval_checkouts = none;
    last_total_checkout_time = none;
    checkouts_per_second = none;
    interval = pos 0;
  }

  unfoldable pub kill_processes : HostProg N → HostProg N
  kill_processes h = record h {
    process_count = some ar.zero;
    connection_count = some ar.zero;
    checkout_count = some ar.zero;
    checkouts_per_second = some ar.zero;
  }

  -- Python's `max(a, b)`
  abbrev pub max_of : N → N → N
  max_of a b = if ar.lt a b then b else a

  unfoldable pub update_process_count : N → HostProg N → HostProg N
  update_process_count value h = record h {
    process_count = some value;
    max_process_count = max_of value h.max_process_count;
  }

  unfoldable pub update_checkedout : N → HostProg N → HostProg N
  update_checkedout value h = record h {
    checkout_count = some value;
    max_checkedout = max_of h.max_checkedout value;
  }

  unfoldable pub update_connection_count : N → HostProg N → HostProg N
  update_connection_count value h = record h {
    connection_count = some value;
    max_connections = max_of h.max_connections value;
  }

  unfoldable pub update_total_connects : N → HostProg N → HostProg N
  update_total_connects value h = elim h.total_connects [
    | none ↦ record h { total_connects = some value }
    | some before ↦ record h {
      interval_connects = some (ar.sub value before);
      total_connects = some value;
    }
  ]

  -- the last two lines
  abbrev stored : ℤ → N → HostProg N → HostProg N
  stored time value h = record h {
    total_checkouts = some value;
    last_total_checkout_time = some time;
  }

  -- where a time was stored before, and `before` is the total that was stored with it
  unfoldable pub update_rate : ℤ → ℤ → N → N → HostProg N → HostProg N × Result (Unit {0})
  update_rate time interval value before h =
      let time_delta = time -ℤ or_zero h.last_total_checkout_time in
      let h' = record h { interval_checkouts = some (ar.sub value before) } in
      if not (ltb_ℤ time_delta (of_seconds interval)) && ar.lt ar.zero before
      then (if time_delta == pos 0 then (h', raise zero_division) else (
        stored time value (record h' {
          checkouts_per_second = some (ar.divide (ar.sub value before) time_delta);
        }),
        ok tt,
      ))
      else (stored time value h', ok tt)

  unfoldable pub update_total_checkouts : ℤ → ℤ → N → HostProg N → HostProg N × Result (Unit {0})
  unfolding update_rate
  update_total_checkouts time interval value h =
      if is_set h.last_total_checkout_time
      then elim h.total_checkouts [
        | none ↦ (h, raise assertion_error)
        | some before ↦ update_rate time interval value before h
      ]
      else (stored time value h, ok tt)

  -- an updater is given the time and the interval of the message, and its first value
  unfoldable pub update : Updater → ℤ → ℤ → N → HostProg N → HostProg N × Result (Unit {0})
  unfolding update_process_count update_checkedout update_connection_count update_total_connects
      update_total_checkouts
  update numprocs time interval value h = (update_process_count value h, ok tt)
  update checkedout time interval value h = (update_checkedout value h, ok tt)
  update connections time interval value h = (update_connection_count value h, ok tt)
  update connects time interval value h = (update_total_connects value h, ok tt)
  update checkouts time interval value h = update_total_checkouts time interval value h
