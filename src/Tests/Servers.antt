-- ===== src/Tests/Servers.antt =====
-- A server's receiver, with the messages of two processes of one program.
use sqlalchemy_collectd.Base.{
  ◌≡◌, refl, false, Option, some, List, [], ◌∷◌, nat_eq, list_eq, option_eq, pair_eq, ℤ, pos, ◌*ℤ◌,
  ◌-ℤ◌, ◌+ℤ◌, ◌≤ℤ◌, ok, ◌⊎◌, inl, inr, arith,
}
use sqlalchemy_collectd.Base.Dict.{lookup}
use sqlalchemy_collectd.Base.Sorting.Groups.{select}
use sqlalchemy_collectd.Number.{int, float}
use mathlib.Core.List.{zip}
use sqlalchemy_collectd.Protocol.Bytes.{Text, pack_header}
use sqlalchemy_collectd.Protocol.Types
use sqlalchemy_collectd.Protocol.Values.{Values, of_seconds, int_of, build}
use sqlalchemy_collectd.Protocol.Values.Shapes.{IsShaped}
use sqlalchemy_collectd.CollectdTypes.{text, process_name, pool_name}
use sqlalchemy_collectd.Stream.TimeBucket.{TimeBucket, scaled, get_bucket, set_item}
use sqlalchemy_collectd.Stream.Translator
use sqlalchemy_collectd.Server.Receiver
use sqlalchemy_collectd.Server.Receiver.{
  Key, Receiver, key_before, program_of, host_of, receive, store, set_stats, key_of, process_record,
}
use sqlalchemy_collectd.Server.Receiver.Ownership.{
  receive_each, AreInOrder, receive_each-AreInOrder, new-AreInOrder,
}
use sqlalchemy_collectd.Server.Stats.{group_sum, get_stats_by_progname, get_stats_by_hostname}
use sqlalchemy_collectd.Server.Stats.Processes.{
  live_processes, Counts, get_stats_by_progname-Counts,
}
use sqlalchemy_collectd.Server.Stats.Groups.{Reports, one_group, live_keys, read_at}
use sqlalchemy_collectd.Server.Stats.Reports.{
  IsReadable, get_stats_by_progname-Reports, get_stats_by_hostname-Reports,
}
use sqlalchemy_collectd.Tests.Samples.{floats}

abbrev started : (r : Receiver) × (Receiver.new ≡ ok r)
unfolding Receiver.new Types.init pack_header Translator.new zip
started = (_, refl)

abbrev sent_by : Text → ℤ → Values
sent_by token seconds = record {
  type = some pool_name;
  type_instance = some token;
  plugin = some (text "sqlalchemy");
  plugin_instance = some (text "app");
  host = some (text "h");
  time = some (of_seconds seconds);
  interval = pos 10;
  values = some (float 5 ∷ []);
}

abbrev messages : List Values
messages = sent_by (text "1") (pos 100) ∷ sent_by (text "2") (pos 101) ∷ []

-- each object holds one float
abbrev OneFloat : Text → Values → Type 0
OneFloat name v = IsShaped (false ∷ []) v ⊎ (v.values ≡ some (int (pos 1) ∷ []))

abbrev processes : TimeBucket Key Values
processes = record {
  bucket =
      (
        key_of (sent_by (text "1") (pos 100)),
        record {
          timestamp = of_seconds (pos 100);
          interval = some (pos 50);
          value = process_record (sent_by (text "1") (pos 100));
        },
      )
      ∷ (
        key_of (sent_by (text "2") (pos 101)),
        record {
          timestamp = of_seconds (pos 101);
          interval = some (pos 50);
          value = process_record (sent_by (text "2") (pos 101));
        },
      )
      ∷ [];
  last_timestamp = of_seconds (pos 101);
  last_interval = pos 50;
}

processes_found : lookup process_name (receive_each messages started.0).buckets ≡ some processes
unfolding Receiver.new Types.init pack_header Translator.new zip receive_each receive set_stats
    get_bucket set_item build ◌*ℤ◌ ◌-ℤ◌
processes_found = refl

accepted :
    int_of processes.last_timestamp
    ≤ℤ int_of (of_seconds (pos 103)) +ℤ scaled processes.last_interval
unfolding ◌*ℤ◌ ◌+ℤ◌
accepted = omega arith

receive_each-AreInOrder_example : AreInOrder OneFloat (receive_each messages started.0).buckets
receive_each-AreInOrder_example =
    receive_each-AreInOrder OneFloat (λ n v h. unfold build in inr refl) messages started.0
      ((λ n e. inl (_, refl, (tt, tt))), ((λ n e. inl (_, refl, (tt, tt))), tt))
      (new-AreInOrder OneFloat started.1)

get_stats_by_progname-Counts_example :
    (ws : List Values) × ((get_stats_by_progname floats
        (receive_each messages started.0).buckets
        process_name
        (of_seconds (pos 103))).1
      ≡ (ws, ok tt))
    × ((p : Option Text × Option Text)
        → Counts
            (live_processes p processes (of_seconds (pos 103)))
            (select (λ v. (v.host, v.plugin_instance)) p ws))
get_stats_by_progname-Counts_example =
    get_stats_by_progname-Counts floats messages started.0 processes (of_seconds (pos 103))
      started.1 ((λ h. cc), ((λ h. cc), tt))
      (((λ h. cc), (λ h. cc), (λ h. cc)), (((λ h. cc), (λ h. cc), (λ h. cc)), tt)) processes_found
      accepted

-- the bucket of the pools, with the records of both processes
abbrev pools : TimeBucket Key Values
pools = record {
  bucket =
      (
        key_of (sent_by (text "1") (pos 100)),
        record {
          timestamp = of_seconds (pos 100);
          interval = some (pos 20);
          value = sent_by (text "1") (pos 100);
        },
      )
      ∷ (
        key_of (sent_by (text "2") (pos 101)),
        record {
          timestamp = of_seconds (pos 101);
          interval = some (pos 20);
          value = sent_by (text "2") (pos 101);
        },
      )
      ∷ [];
  last_timestamp = of_seconds (pos 101);
  last_interval = pos 20;
}

pools-IsReadable : IsReadable (IsShaped (false ∷ [])) pools (of_seconds (pos 103))
unfolding ◌*ℤ◌ ◌+ℤ◌
pools-IsReadable = record {
  kept = (refl, refl, (refl, refl, tt));
  owned = (refl, (_, refl, (tt, tt)), (refl, (_, refl, (tt, tt)), tt));
  texts = (((λ h. cc), (λ h. cc), (λ h. cc)), (((λ h. cc), (λ h. cc), (λ h. cc)), tt));
  on_time = omega arith;
}

get_stats_by_progname-Reports_example :
    (ws : List Values) × ((get_stats_by_progname floats
        ((pool_name, pools) ∷ [])
        pool_name
        (of_seconds (pos 103))).1
      ≡ (ws, ok tt))
    × ((p : Option Text × Option Text)
        → Reports
            (group_sum floats
              (λ d. d)
              (read_at pools (of_seconds (pos 103)))
              (of_seconds (pos 103)))
            (one_group program_of p (live_keys pools (of_seconds (pos 103))))
            (select (λ v. (v.host, v.plugin_instance)) p ws))
get_stats_by_progname-Reports_example =
    get_stats_by_progname-Reports floats (IsShaped (false ∷ [])) (false ∷ []) (λ v h. h)
      ((pool_name, pools) ∷ []) pool_name pools (of_seconds (pos 103)) refl pools-IsReadable

get_stats_by_hostname-Reports_example :
    (ws : List Values) × ((get_stats_by_hostname floats
        ((pool_name, pools) ∷ [])
        pool_name
        (of_seconds (pos 103))).1
      ≡ (ws, ok tt))
    × ((h : Option Text)
        → Reports
            (group_sum floats
              (λ d. record d { plugin_instance = some (text "host") })
              (read_at pools (of_seconds (pos 103)))
              (of_seconds (pos 103)))
            (one_group host_of h (live_keys pools (of_seconds (pos 103))))
            (select (λ v. v.host) h ws))
get_stats_by_hostname-Reports_example =
    get_stats_by_hostname-Reports floats (IsShaped (false ∷ [])) (false ∷ []) (λ v h. h)
      ((pool_name, pools) ∷ []) pool_name pools (of_seconds (pos 103)) refl pools-IsReadable
