-- ===== src/Tests/Monitor.antt =====
-- The worker, the network's ends and the monitor.
use sqlalchemy_collectd.Base.{
  ℕ, ◌≡◌, refl, true, false, none, some, [], ◌∷◌, ◌++◌, map, nat_eq, list_eq, if◌then◌else◌, ◌==◌,
  ℤ, pos, ◌+ℤ◌, ◌-ℤ◌, ◌*ℤ◌, ltb_ℤ, All, raise, io_error, length, suc, List, arith,
}
use sqlalchemy_collectd.Protocol.Bytes.{Bytes, Text}
use sqlalchemy_collectd.Protocol.Values.{of_seconds}
use sqlalchemy_collectd.Protocol.Unpacker.{unpack_bytes}
use sqlalchemy_collectd.CollectdTypes.{text}
use sqlalchemy_collectd.Network.Connections
use sqlalchemy_collectd.Network.Connections.{Answers, Datagram, send_each}
use sqlalchemy_collectd.Network.Connections.Forks.{
  IsFromOwner, send_each-IsFromOwner, send_each-stale,
}
use sqlalchemy_collectd.Network.Listeners.{Call, received, sent, run, send_to_all}
use sqlalchemy_collectd.Network.Listeners.Reached.{has, last_helo, send_to_all-has}
use sqlalchemy_collectd.Network.Endpoints.{put_each, connection_lost}
use sqlalchemy_collectd.Network.Endpoints.Order.{receive_each, arrival, receive_each-put_each}
use sqlalchemy_collectd.Client.Worker.Rate.{
  call_times, undisturbed, due_times, call_times-eq-due_times,
}
use sqlalchemy_collectd.Connmon.HostProg.{Arithmetic}
use sqlalchemy_collectd.Connmon.Stat
use sqlalchemy_collectd.Connmon.Stat.{Message, Step, message, round}
use sqlalchemy_collectd.Base.{ok, pair_eq}
use sqlalchemy_collectd.Base.Dict.{lookup}
use sqlalchemy_collectd.Connmon.Stat.{process_hostprogs}
use sqlalchemy_collectd.Connmon.Stat.Ageing.{AgesTo}
use sqlalchemy_collectd.Connmon.Stat.Keys.{process_hostprogs-run}
use sqlalchemy_collectd.Connmon.Stat.Maxima.{HaveMaxima, run-HaveMaxima}

-- process 1 opens socket 11, its child 2 opens socket 22
abbrev owner : ℕ → ℕ
owner s = if s == 11 then 1 else 2

abbrev forked : List (Answers × Bytes)
forked =
    (record { getpid = 1; opened = some 11; sendto_raises = false }, 7 ∷ [])
    ∷ (record { getpid = 2; opened = some 22; sendto_raises = false }, 8 ∷ [])
    ∷ []

send_each-IsFromOwner_example :
    All (IsFromOwner owner) (send_each forked (Connections.new (text "localhost") 25827)).1
send_each-IsFromOwner_example =
    send_each-IsFromOwner owner forked (text "localhost") 25827
      ((11, refl, refl), ((22, refl, refl), tt))

send_each-stale_example :
    (send_each
      ((record { getpid = 1; opened = some 11; sendto_raises = false }, 7 ∷ [])
        ∷ (record { getpid = 2; opened = none; sendto_raises = false }, 8 ∷ [])
        ∷ (record { getpid = 2; opened = some 22; sendto_raises = false }, 9 ∷ [])
        ∷ [])
      (Connections.new (text "localhost") 25827)).1
    ≡ record { sender_pid = 1; through = 11; address = (text "localhost", 25827); message = 7 ∷ [] }
      ∷ record {
        sender_pid = 2;
        through = 11;
        address = (text "localhost", 25827);
        message = 9 ∷ [];
      }
      ∷ []
send_each-stale_example =
    send_each-stale 1 2 11 (some 22) (7 ∷ []) (8 ∷ []) (9 ∷ []) (text "localhost") 25827
      (omega arith)

abbrev calls : List (Call ℕ)
calls =
    received (text "HELO") 5 (of_seconds (pos 100))
    ∷ received (text "HELO") 6 (of_seconds (pos 120))
    ∷ sent true (of_seconds (pos 125))
    ∷ []

send_to_all-has_example : has 5 (send_to_all (of_seconds (pos 140)) true (run calls [])).0 ≡ false
unfolding last_helo ◌*ℤ◌ ◌-ℤ◌
send_to_all-has_example =
    send_to_all-has calls (pos 0) (of_seconds (pos 140)) true 5
      (omega arith, (omega arith, (omega arith, tt))) (omega arith)

abbrev packets : List (Bytes × Text)
packets = (0 ∷ 9 ∷ [], text "a") ∷ (0 ∷ 8 ∷ 0 ∷ [], text "b") ∷ []

receive_each-put_each_example :
    (receive_each []
        (suc (length packets))
        (put_each [] (map (arrival []) packets ++ connection_lost ∷ []))
      ≡ map (λ p. some (unpack_bytes [] p.0)) packets ++ some (raise io_error) ∷ [])
    × (receive_each [] (suc (length packets)) (put_each [] (map (arrival []) packets))
        ≡ map (λ p. some (unpack_bytes [] p.0)) packets ++ none ∷ [])
receive_each-put_each_example = receive_each-put_each [] packets

ltb_ℤ_irrefl : (a : ℤ) → ltb_ℤ a a ≡ false
ltb_ℤ_irrefl a = ground arith

ltb_ℤ_asymm : (a b : ℤ) → ltb_ℤ a b ≡ true → ltb_ℤ b a ≡ false
ltb_ℤ_asymm a b h = ground arith

ltb_ℤ_trans : (a b c : ℤ) → ltb_ℤ b a ≡ false → ltb_ℤ c b ≡ false → ltb_ℤ c a ≡ false
ltb_ℤ_trans a b c h k = ground arith

abbrev integers : Arithmetic ℤ
integers = record {
  zero = pos 0;
  lt = ltb_ℤ;
  add = λ a b. a +ℤ b;
  sub = λ a b. a -ℤ b;
  divide = λ a t. a;
  lt_irrefl = ltb_ℤ_irrefl;
  lt_asymm = ltb_ℤ_asymm;
  le_trans = ltb_ℤ_trans;
}

abbrev history : List (Step ℤ)
history =
    message (record {
      host = text "h";
      plugin_instance = some (text "app");
      type_instance = text "checkedout";
      time = of_seconds (pos 100);
      interval = pos 10;
      values = pos 7 ∷ [];
    })
    ∷ round (of_seconds (pos 101))
    ∷ round (of_seconds (pos 125))
    ∷ []

run-HaveMaxima_example : HaveMaxima integers (Stat.run integers history (Stat.new integers))
run-HaveMaxima_example = run-HaveMaxima integers history

process_hostprogs-run_example :
    ((process_hostprogs integers
        (of_seconds (pos 200))
        (Stat.run integers history (Stat.new integers))).1
      ≡ ok tt)
    × AgesTo integers
        (of_seconds (pos 200))
        (lookup (text "h", text "app") (Stat.run integers history (Stat.new integers)).hostprogs)
        (lookup
          (text "h", text "app")
          (process_hostprogs integers
            (of_seconds (pos 200))
            (Stat.run integers history (Stat.new integers))).0.hostprogs)
process_hostprogs-run_example =
    process_hostprogs-run integers history (of_seconds (pos 200)) (text "h", text "app")

-- two targets, one of them called a moment ago
call_times-eq-due_times_example :
    call_times {K = ℕ} 2
      (pos 10)
      (undisturbed (of_seconds (pos 101) ∷ of_seconds (pos 105) ∷ of_seconds (pos 112) ∷ []))
      ((1, of_seconds (pos 100)) ∷ (2, pos 0) ∷ [])
    ≡ due_times
        (pos 10)
        (pos 0)
        (of_seconds (pos 101) ∷ of_seconds (pos 105) ∷ of_seconds (pos 112) ∷ [])
call_times-eq-due_times_example =
    call_times-eq-due_times 2 (pos 10) (pos 0)
      (of_seconds (pos 101) ∷ of_seconds (pos 105) ∷ of_seconds (pos 112) ∷ [])
      ((1, of_seconds (pos 100)) ∷ (2, pos 0) ∷ []) (refl, (refl, tt)) refl
