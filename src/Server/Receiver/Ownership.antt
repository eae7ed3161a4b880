-- ===== src/Server/Receiver/Ownership.antt =====
-- server/receiver.py: what the buckets hold after any messages, those that raise included.
use sqlalchemy_collectd.Base.{
  ℕ, Option, none, some, List, [], ◌∷◌, ◌≡◌, refl, sym, nat_eq, list_eq, option_eq, pair_eq, ◌==◌,
  ℤ, pos, ◌*ℤ◌, Result, ok, raise, stuck, key_error, type_error, Option-cases, ◌⊎◌, >>=-eq-ok,
  ok-injective, inl, inr, Bool-cases, All,
}
use mathlib.Core.Path.{subst}
use sqlalchemy_collectd.Base.Dict.{lookup, insert}
use sqlalchemy_collectd.Protocol.Bytes.{Text}
use sqlalchemy_collectd.Protocol.Types.{CollectdType}
use sqlalchemy_collectd.Protocol.Values.{Values, build}
use sqlalchemy_collectd.CollectdTypes.{process_name}
use sqlalchemy_collectd.Stream.TimeBucket
use sqlalchemy_collectd.Stream.Translator
use sqlalchemy_collectd.Stream.TimeBucket.{
  Entry, TimeBucket, DictFacade, expire, get_bucket, get_data, set_item, is_late,
}
use sqlalchemy_collectd.Stream.TimeBucket.Expiry.{
  IsKept, AreKept-expire, AreKept-insert, get_bucket-late, get_bucket-on_time,
}
use sqlalchemy_collectd.Server.Receiver.{
  Key, Buckets, Receiver, key_of, written, store, store_named, is_given, process_record,
  count_process, set_stats, receive, new, new_buckets, collectd_types,
}
use sqlalchemy_collectd.Server.Receiver.Records.{AreOwned, AreOwned-expire, AreOwned-insert}

-- the objects that come in, one call of `receive` for each; an exception is logged and ends its call
unfoldable pub receive_each : List Values → Receiver → Receiver
receive_each [] r = r
receive_each (v ∷ vs) r = receive_each vs (receive r (some v)).0

module _ (P : Text → Values → Type 0) where
  -- An object is as its type asks.
  abbrev pub FitsType : Values → Type 0
  FitsType v = (name : Text) → v.type ≡ some name → P name v

  abbrev pub InOrder : Text → TimeBucket Key Values → Type 0
  InOrder name b = IsKept b × AreOwned (P name) b.bucket

  abbrev pub AreInOrder : Buckets → Type 0
  AreInOrder [] = Unit {0}
  AreInOrder ((name, b) ∷ d) = InOrder name b × AreInOrder d

  pub lookup-InOrder :
      (name : Text) (d : Buckets) {b : TimeBucket Key Values}
      → AreInOrder d
      → lookup name d ≡ some b
      → InOrder name b
  lookup-InOrder name [] h e = cc
  lookup-InOrder name ((j, x) ∷ d) {b} h e = elim (Bool-cases (j == name)) [
    | inl same ↦
        let q : j ≡ name = ((list_eq {A = ℕ}).beq_iff j name).0 same in
        let p : some x ≡ some b = rw same at e in
        let x_eq : x ≡ b = cc in subst (λ n. InOrder n b) q (subst (λ y. InOrder j y) x_eq h.0)
    | inr other ↦ lookup-InOrder name d h.1 (rw other at e)
  ]

  insert-AreInOrder :
      (name : Text) (b : TimeBucket Key Values) (d : Buckets)
      → InOrder name b
      → AreInOrder d
      → AreInOrder (insert name b d)
  insert-AreInOrder name b [] hb h = (hb, tt)
  insert-AreInOrder name b ((j, x) ∷ d) hb h = elim (Bool-cases (j == name)) [
    | inl same ↦
        let q : name ≡ j = sym (((list_eq {A = ℕ}).beq_iff j name).0 same) in
        rw same (subst (λ n. InOrder n b) q hb, h.1)
    | inr other ↦ rw other (h.0, insert-AreInOrder name b d hb h.1)
  ]

  store-InOrder :
      (name : Text) (b : TimeBucket Key Values) (t i : ℤ) (v : Values)
      → P name v
      → InOrder name b
      → InOrder name (store b t i (key_of v) v).0
  unfolding store set_item
  store-InOrder name b t i v asked h = elim (Bool-cases (is_late t b.last_timestamp i)) [
    | inl late ↦ subst Left (sym (get_bucket-late b t (some i) late)) h
    | inr on_time ↦
        let x : Entry Values = record { timestamp = t; interval = some i; value = v } in
        subst Left (sym (get_bucket-on_time b t (some i) h.0 on_time)) (
          AreKept-insert (key_of v) x (expire t b.bucket).0 refl (AreKept-expire t b.bucket h.0).0,
          AreOwned-insert (P name) (key_of v) x (expire t b.bucket).0 refl asked
              (AreOwned-expire (P name) t b.bucket h.1),
        )
  ]
    where
      Left : TimeBucket Key Values × Result DictFacade → Type 0
      Left p = InOrder name (written (key_of v) v p).0

  store_named-AreInOrder :
      (name : Text) (d : Buckets) (t i : ℤ) (v : Values)
      → P name v
      → AreInOrder d
      → AreInOrder (store_named d name t i (key_of v) v).0
  unfolding store_named
  store_named-AreInOrder name d t i v asked h = found (Option-cases (lookup name d))
    where
      found :
          (lookup name d ≡ none) ⊎ ((b : TimeBucket Key Values) × (lookup name d ≡ some b))
          → AreInOrder (store_named d name t i (key_of v) v).0
      found (inl e) = rw (e, store_named) h
      found (inr (b, e)) =
          rw (e, store_named)
            (insert-AreInOrder name (store b t i (key_of v) v).0 d
              (store-InOrder name b t i v asked (lookup-InOrder name d h e)) h)

  module _ (one_process : (n : Text) (v : Values) → P n v → P process_name (process_record v)) where
    count_process-AreInOrder :
        (n : Text) (v : Values) (t : ℤ) (r : Buckets × Result (Unit {0}))
        → P n v
        → AreInOrder r.0
        → AreInOrder (count_process v t r).0
    unfolding build
    count_process-AreInOrder n v t (d, ok _) asked h =
        elim (Bool-cases (is_given v.type_instance)) [
          | inl given ↦ rw given (
              store_named-AreInOrder process_name d t (v.interval *ℤ pos 5) (process_record v)
                (one_process n v asked) h)
          | inr absent ↦ rw absent h
        ]
    count_process-AreInOrder n v t (d, raise e) asked h = h
    count_process-AreInOrder n v t (d, stuck) asked h = h

    set_stats-AreInOrder :
        (d : Buckets) (v : Values) → FitsType v → AreInOrder d → AreInOrder (set_stats d v).0
    unfolding set_stats
    set_stats-AreInOrder d v fits h = named v.type (λ n e. fits n e)
      where
        named :
            (o : Option Text)
            → ((n : Text) → o ≡ some n → P n v)
            → AreInOrder
                (elim o as (λ _. Buckets × Result (Unit {0})) [
                  | none ↦ (d, raise key_error)
                  | some name ↦ elim v.time [
                    | none ↦ (d, raise type_error)
                    | some t ↦
                        count_process v t (store_named d name t (v.interval *ℤ pos 2) (key_of v) v)
                  ]
                ]).0
        named none fits = h
        named (some n) fits = timed v.time
          where
            timed :
                (o : Option ℤ)
                → AreInOrder
                    (elim o as (λ _. Buckets × Result (Unit {0})) [
                      | none ↦ (d, raise type_error)
                      | some t ↦
                          count_process v t (store_named d n t (v.interval *ℤ pos 2) (key_of v) v)
                    ]).0
            timed none = h
            timed (some t) =
                count_process-AreInOrder n v t
                  (store_named d n t (v.interval *ℤ pos 2) (key_of v) v) (fits n refl)
                  (store_named-AreInOrder n d t (v.interval *ℤ pos 2) v (fits n refl) h)

    -- Where the process record of an object that is as its type asks is as the process type asks:
    -- after any objects that are as their types ask, in any order and at any times, those
    -- included for which `receive` raises: no key of a bucket stands twice and each entry has an
    -- interval, each record stands under its own host, program and process, and is as the bucket's
    -- type asks.
    pub receive_each-AreInOrder :
        (vs : List Values) (r : Receiver)
        → All FitsType vs
        → AreInOrder r.buckets
        → AreInOrder (receive_each vs r).buckets
    unfolding receive_each receive
    receive_each-AreInOrder [] r fits h = h
    receive_each-AreInOrder (v ∷ vs) r fits h =
        receive_each-AreInOrder vs (receive r (some v)).0 fits.1
          (set_stats-AreInOrder r.buckets v fits.0 h)

  new_buckets-AreInOrder :
      (ts : List CollectdType) (d : Buckets) → AreInOrder d → AreInOrder (new_buckets ts d)
  unfolding new_buckets
  new_buckets-AreInOrder [] d h = h
  new_buckets-AreInOrder (t ∷ ts) d h =
      new_buckets-AreInOrder ts (insert t.name TimeBucket.new d)
        (insert-AreInOrder t.name TimeBucket.new d (tt, tt) h)

  pub new-AreInOrder : {r : Receiver} → new ≡ ok r → AreInOrder r.buckets
  unfolding new
  new-AreInOrder h =
      let (types, p, h1) = >>=-eq-ok collectd_types _ h in
      let (translator, q, done) = >>=-eq-ok (Translator.new types) _ h1 in
      rw (← ok-injective done) (new_buckets-AreInOrder types [] tt)
