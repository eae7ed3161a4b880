-- ===== src/Tests/Plugins.antt =====
-- The plugins: the arguments of an engine, and engines that share.
use sqlalchemy_collectd.Base.{
  ℕ, ℤ, Bool, map, All, arith, ◌++◌, false, ◌≡◌, refl, true, none, some, List, [], ◌∷◌, nat_eq,
  list_eq, pair_eq, pos, ok,
}
use sqlalchemy_collectd.Base.Dict.{Dict, lookup, contains}
use sqlalchemy_collectd.CollectdTypes.{text}
use sqlalchemy_collectd.Protocol.Values.{no_slots}
use sqlalchemy_collectd.Network.Forwarding.{server_sender}
use sqlalchemy_collectd.Connmon.Forwarder.{Event, written, heard, served, init_service, run}
use sqlalchemy_collectd.Connmon.Forwarder.Order.{accepted, taken, run-in_order, run-taken}
use sqlalchemy_collectd.Connmon.Forwarder.{send, write, run_service}
use sqlalchemy_collectd.Client.Worker.Threaded
use sqlalchemy_collectd.Client.Worker.Threaded.{Step, items_loop, added, rounded, step}
use sqlalchemy_collectd.Client.Worker.Threaded.Ended.{run-after_added}
use sqlalchemy_collectd.Protocol.Values.{of_seconds}
use sqlalchemy_collectd.Network.Forwarding.{Moment}
use sqlalchemy_collectd.Tests.Samples.{floats}
use sqlalchemy_collectd.Client.Sender
use sqlalchemy_collectd.Client.Sender.{SenderKey}
use sqlalchemy_collectd.Client.Plugin.{
  str, number, Arguments, Plugin, digits, int_of, init, Engine, System, start_each, nothing_shared,
}
use sqlalchemy_collectd.Client.Plugin.Favored.{IsFavored, init-IsFavored}
use sqlalchemy_collectd.Client.Plugin.Start.{joined, start_each-shares}

-- a host and a port in the URL, a port and a name among the keywords
abbrev query : Arguments
query =
    (text "collectd_host", str (text "stats")) ∷ (text "collectd_port", str (text " 25_830")) ∷ []

abbrev kwargs : Arguments
kwargs =
    (text "echo", number (pos 1))
    ∷ (text "collectd_port", number (pos 25827))
    ∷ (text "collectd_program_name", str (text "web"))
    ∷ []

int_of-digits : int_of (str (text " 25_830")) ≡ ok (number (pos 25830))
unfolding int_of digits
int_of-digits = refl

init-IsFavored_example : (p : Plugin) × (init true query kwargs ≡ ok p) × IsFavored query kwargs p
unfolding int_of digits
init-IsFavored_example = init-IsFavored true query kwargs refl refl

abbrev system : System
system = record { gethostname = text "db1"; program = text "app.py" }

abbrev web : SenderKey
web = ((text "db1", text "web"), (text "localhost", 25827))

-- two engines of one program, which report to two ports, and one without a name
abbrev engines : List Engine
engines =
    record {
      collector = 1;
      hostname = none;
      progname = some (text "web");
      collectd_host = none;
      collectd_port = none;
    }
    ∷ record {
      collector = 2;
      hostname = none;
      progname = some (text "web");
      collectd_host = none;
      collectd_port = some 9;
    }
    ∷ record {
      collector = 3;
      hostname = none;
      progname = none;
      collectd_host = none;
      collectd_port = none;
    }
    ∷ []

start_each-shares_example :
    (lookup (text "web") (start_each system engines nothing_shared).targets
      ≡ joined system (text "web") engines none)
    × (lookup web (start_each system engines nothing_shared).senders ≡ some (Sender.new web))
    × (contains (text "web", web) (start_each system engines nothing_shared).worker ≡ true)
start_each-shares_example = start_each-shares system engines (text "web") web (text "web", web)

-- an object of another plugin, two of this one, and a round between them
abbrev events : List Event
events =
    written (record no_slots { plugin = some (text "cpu") })
    ∷ written (record no_slots { plugin = some (text "sqlalchemy"); host = some (text "db1") })
    ∷ heard (text "HELO") (text "10.0.0.2", 40002) (pos 0)
    ∷ served (record {
      now = pos 0;
      connected = true;
      answers = record { getpid = 1; opened = none; sendto_raises = false };
    })
    ∷ written (record no_slots { plugin = some (text "sqlalchemy"); host = some (text "db2") })
    ∷ []

abbrev rounds : List Moment
rounds =
    record {
      now = pos 9;
      connected = true;
      answers = record { getpid = 1; opened = none; sendto_raises = false };
    }
    ∷ []

run-in_order_example :
    taken (run floats [] events (init_service (server_sender [] ∷ []))).1
      ++ (run floats [] events (init_service (server_sender [] ∷ []))).0.queue
    ≡ accepted events
unfolding init_service
run-in_order_example = run-in_order floats [] events (init_service (server_sender [] ∷ [])) refl

run-taken_example :
    (taken (run floats [] (events ++ map served rounds) (init_service (server_sender [] ∷ []))).1
      ≡ accepted events)
    × ((run floats [] (events ++ map served rounds) (init_service (server_sender [] ∷ []))).0.queue
        ≡ [])
unfolding init_service run write send run_service
run-taken_example =
    run-taken floats [] events rounds (init_service (server_sender [] ∷ [])) refl (omega arith)

abbrev no_exit : ℕ → Bool
no_exit n = false

abbrev later : List (Step ℕ)
later =
    rounded no_exit (of_seconds (pos 120)) []
    ∷ added 5
    ∷ rounded no_exit (of_seconds (pos 140)) []
    ∷ []

abbrev targets : Dict ℕ ℤ
targets = (1, pos 0) ∷ (2, pos 0) ∷ (3, pos 0) ∷ []

-- the fourth target comes while the second of three is handled
run-after_added_example :
    All
      (λ calls. calls ≡ [])
      (Threaded.run 7
        (pos 10)
        later
        (step 7 (pos 10) (rounded no_exit (of_seconds (pos 100)) ([] ∷ (4 ∷ []) ∷ [])) (record {
          targets = targets;
          threads = record { worker_thread = true; pid = 7 };
          alive = true;
        })).0)
run-after_added_example =
    run-after_added 7 (pos 10) no_exit (of_seconds (pos 100)) targets 1 4 ([] ∷ (4 ∷ []) ∷ []) later
      (omega arith) refl refl
