-- ===== src/Client/Sender/Delivery.antt =====
-- From a client's target to the server's objects: the messages of `send`, packed and unpacked.
use sqlalchemy_collectd.Base.{
  ℕ, ◌+◌, ◌*◌, ◌^◌, ◌<◌, ◌≤◌, ◌≡◌, refl, sym, ap, ◌∙◌, true, some, List, [], ◌∷◌, map, length, All,
  nat_eq, list_eq, ℤ, pos, ok, >>=-eq-ok, ok-injective, arith,
}
use mathlib.Core.Path.{subst, ap₂}
use sqlalchemy_collectd.Base.Dict.{Dict, lookup}
use sqlalchemy_collectd.Number.{Num, int, IsNum, Floats}
use sqlalchemy_collectd.Protocol.Bytes.{Bytes, Text, fits_signed64, pack_header, pack_short}
use sqlalchemy_collectd.Protocol.Types
use sqlalchemy_collectd.Protocol.Types.{ValueType, CollectdType, init-name, type_values}
use sqlalchemy_collectd.Protocol.Values
use sqlalchemy_collectd.Protocol.Values.{Values, int_of, of_seconds, build}
use sqlalchemy_collectd.Protocol.Packer.{by_name, find_type, pack_values}
use sqlalchemy_collectd.Protocol.Unpacker.{unpack_bytes}
use sqlalchemy_collectd.Protocol.RoundTrip.Data.{received_all}
use sqlalchemy_collectd.Protocol.RoundTrip.Message.{unpack_bytes-pack_values}
use sqlalchemy_collectd.Protocol.RoundTrip.Accepted.{
  IsPackable, ArePackable, count-gauge, count-derive, pack_values-Packs,
}
use sqlalchemy_collectd.CollectdTypes.{
  pool_name, totals_name, pool_fields, totals_fields, pool_internal, totals_internal,
}
use sqlalchemy_collectd.Client.Collector.{
  CollectionTarget, num_pools, num_checkedout, num_checkedin, num_detached, num_connections,
}
use sqlalchemy_collectd.Client.Sender.{Sender, base_values, send_pool, send_connection_totals, send}

init-value_types :
    (name : Text) (db : List (Text × ValueType)) {t : CollectdType}
    → Types.init name db ≡ ok t
    → t.value_types ≡ map (λ e. e.1) db
unfolding Types.init
init-value_types name db h =
    let (_, _, more) = >>=-eq-ok (pack_header type_values (6 + 9 * length db)) _ h in
    let (_, _, done) = >>=-eq-ok (pack_short (length db)) _ more in
    ap (λ t. t.value_types) (sym (ok-injective done))

-- A count that a double holds exactly.
abbrev pub IsCount : ℕ → Type 0
IsCount n = n < 2 ^ 53

-- The counters of a target are in range.
pub record IsCountable (t : CollectionTarget) : Type 0 where
  pub pools : IsCount (num_pools t)
  pub checkedout : IsCount (num_checkedout t)
  pub checkedin : IsCount (num_checkedin t)
  pub detached : IsCount (num_detached t)
  pub connections : IsCount (num_connections t)
  pub checkouts : IsCount t.total_checkouts
  pub invalidated : IsCount t.total_invalidated
  pub connects : IsCount t.total_connects
  pub disconnects : IsCount t.total_disconnects

-- The texts of a sender and of its process fit their parts, and so do the time and the interval.
pub record IsSendable (s : Sender) (timestamp interval : ℤ) (process_token : Text) : Type 0 where
  pub hostname : IsPackable s.hostname
  pub plugin : IsPackable s.plugin
  pub stats_name : IsPackable s.stats_name
  pub token : IsPackable process_token
  pub interval_fits : fits_signed64 interval ≡ true
  pub time_fits : fits_signed64 (int_of timestamp) ≡ true

abbrev pub pool_values : CollectionTarget → List Num
pool_values t =
    int (pos (num_pools t))
    ∷ int (pos (num_checkedout t))
    ∷ int (pos (num_checkedin t))
    ∷ int (pos (num_detached t))
    ∷ int (pos (num_connections t))
    ∷ []

abbrev pub totals_values : CollectionTarget → List Num
totals_values t =
    int (pos t.total_checkouts)
    ∷ int (pos t.total_invalidated)
    ∷ int (pos t.total_connects)
    ∷ int (pos t.total_disconnects)
    ∷ []

pool_found :
    (pool totals : CollectdType)
    → pool.name ≡ pool_name
    → totals.name ≡ totals_name
    → find_type (by_name (pool ∷ totals ∷ [])) (some pool_name) ≡ ok pool
unfolding find_type by_name
pool_found pool totals p q = rw p (rw q refl)

totals_found :
    (pool totals : CollectdType)
    → pool.name ≡ pool_name
    → totals.name ≡ totals_name
    → find_type (by_name (pool ∷ totals ∷ [])) (some totals_name) ≡ ok totals
unfolding find_type by_name
totals_found pool totals p q = rw p (rw q refl)

-- The object that the server holds after a message of a sender: the sender's texts, the time in
-- whole seconds, and the values.
abbrev pub arrived : Sender → ℤ → ℤ → Text → Text → List Num → Values
arrived s timestamp interval process_token name xs = record {
  type = some name;
  type_instance = some process_token;
  plugin = some s.plugin;
  plugin_instance = some s.stats_name;
  host = some s.hostname;
  time = some (of_seconds (int_of timestamp));
  interval = interval;
  values = some xs;
}

-- the gauges of a target, as floats
abbrev pub pool_received : Floats → CollectionTarget → List Num
pool_received fl t = received_all fl (map (λ e. e.1) pool_fields) (pool_values t)

module _ (fl : Floats) (s : Sender) (t : CollectionTarget) (timestamp interval : ℤ)
    (process_token : Text) where
  -- One message, for an object that `base_values` and `build` make.
  one_message :
      (types known : Dict Text CollectdType) (name : Text) (fields : List (Text × ValueType))
      (ty t' : CollectdType) (v : Values) (xs : List Num)
      → Types.init name fields ≡ ok ty
      → find_type types (some name) ≡ ok ty
      → IsPackable name
      → lookup name known ≡ some t'
      → v
        ≡ build
            (base_values s timestamp interval process_token)
            (λ d. record d { type = some name; values = some xs })
      → IsSendable s timestamp interval process_token
      → ArePackable fl (map (λ e. e.1) fields) xs
      → All IsNum xs
      → length (map (λ (e : Text × ValueType). e.1) fields) ≤ length xs
      → (m : Bytes) × (pack_values fl types v ≡ ok m)
        × (unpack_bytes known m
            ≡ ok (
                some (
                  arrived s timestamp interval process_token name
                    (received_all fl (map (λ e. e.1) fields) xs))))
  unfolding base_values build Values.init
  one_message types known name fields ty t' v xs made found name_fits is_known shape ok_texts
        packable nums enough =
      let named : ty.name ≡ name = init-name name fields made in
      let typed : ty.value_types ≡ map (λ e. e.1) fields = init-value_types name fields made in
      let v' : Values = arrived' name xs in
      let (m, packed) =
        pack_values-Packs fl types v' ty timestamp xs found (subst IsPackable (sym named) name_fits)
          ok_texts.hostname ok_texts.plugin ok_texts.stats_name ok_texts.token
          ok_texts.interval_fits refl ok_texts.time_fits refl
          (subst (λ ts. ArePackable fl ts xs) (sym typed) packable) in
      let read =
        unpack_bytes-pack_values fl types v' ty timestamp xs fields known t'
          (subst (λ n. Types.init n fields ≡ ok ty) (sym named) made) found
          (subst (λ n. lookup n known ≡ some t') (sym named) is_known) refl refl nums
          (subst (λ ts. length ts ≤ length xs) (sym typed) enough) packed in
      (
        m,
        rw shape packed,
        read
            ∙ ap₂
                (λ n ts.
                  ok (some (arrived s timestamp interval process_token n (received_all fl ts xs))))
                named typed,
      )
    where
      arrived' : Text → List Num → Values
      arrived' name xs = record {
        type = some name;
        type_instance = some process_token;
        plugin = some s.plugin;
        plugin_instance = some s.stats_name;
        host = some s.hostname;
        time = some timestamp;
        interval = interval;
        values = some xs;
      }

  -- The client sends two messages for a target, and no exception stops it, if its counters are below
  -- 2^53, its texts are ASCII and fit a part, and the time and the interval are 64-bit integers. A
  -- server that knows the two types unpacks them to the target's five gauges, as floats, and its
  -- four totals, with the texts, the interval and the whole seconds of the client.
  pub send_delivers :
      (pool totals t1 t2 : CollectdType) (known : Dict Text CollectdType)
      → pool_internal ≡ ok pool
      → totals_internal ≡ ok totals
      → lookup pool_name known ≡ some t1
      → lookup totals_name known ≡ some t2
      → IsCountable t
      → IsSendable s timestamp interval process_token
      → (m1 m2 : Bytes) × (send fl
            (by_name (pool ∷ totals ∷ []))
            s
            t
            timestamp
            interval
            process_token
          ≡ (m1 ∷ m2 ∷ [], ok tt))
        × (unpack_bytes known m1
            ≡ ok (some (arrived s timestamp interval process_token pool_name (pool_received fl t))))
        × (unpack_bytes known m2
            ≡ ok (some (arrived s timestamp interval process_token totals_name (totals_values t))))
  unfolding send
  send_delivers pool totals t1 t2 known made_pool made_totals k1 k2 c ok_texts =
      let types : Dict Text CollectdType = by_name (pool ∷ totals ∷ []) in
      let p : pool.name ≡ pool_name = init-name pool_name pool_fields made_pool in
      let q : totals.name ≡ totals_name = init-name totals_name totals_fields made_totals in
      let base : Values = base_values s timestamp interval process_token in
      let (m1, packed1, read1) =
        one_message types known pool_name pool_fields pool t1 (send_pool base t) (pool_values t)
          made_pool (pool_found pool totals p q) (refl, omega arith) k1 (unfold send_pool in refl)
          ok_texts
          (
            count-gauge fl (num_pools t) c.pools,
            (
              count-gauge fl (num_checkedout t) c.checkedout,
              (
                count-gauge fl (num_checkedin t) c.checkedin,
                (
                  count-gauge fl (num_detached t) c.detached,
                  (count-gauge fl (num_connections t) c.connections, tt),
                ),
              ),
            ),
          )
          (tt, (tt, (tt, (tt, (tt, tt))))) (omega arith) in
      let (m2, packed2, read2) =
        one_message types known totals_name totals_fields totals t2 (send_connection_totals base t)
          (totals_values t) made_totals (totals_found pool totals p q) (refl, omega arith) k2
          (unfold send_connection_totals in refl) ok_texts
          (
            count-derive fl t.total_checkouts c.checkouts,
            (
              count-derive fl t.total_invalidated c.invalidated,
              (
                count-derive fl t.total_connects c.connects,
                (count-derive fl t.total_disconnects c.disconnects, tt),
              ),
            ),
          )
          (tt, (tt, (tt, (tt, tt)))) (omega arith) in
      (m1, m2, rw packed1 (rw packed2 refl), read1, read2)
