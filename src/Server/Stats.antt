-- ===== src/Server/Stats.antt =====
-- server/receiver.py and server/plugin.py: the sums that `read` hands to collectd.
pub mod Groups
pub mod Reports
pub mod Processes
use sqlalchemy_collectd.Base.{
  true, Option, none, some, List, [], ◌∷◌, nat_eq, list_eq, option_eq, pair_eq, ℤ, Result, ok,
  raise, stuck, key_error, type_error, if◌then◌else◌, ◌>>=◌, map,
}
use sqlalchemy_collectd.Base.Dict.{lookup, insert, keys}
use sqlalchemy_collectd.Base.Generator.{
  Generator, done, fail, and_then, for_each, yield_from_each, yield, with_result,
}
use sqlalchemy_collectd.Base.Sorting.{sorted, groupby}
use sqlalchemy_collectd.Number.{Floats}
use sqlalchemy_collectd.Protocol.Bytes.{Text}
use sqlalchemy_collectd.Protocol.Types.{CollectdType}
use sqlalchemy_collectd.Protocol.Values.{Values, Slots, build, sum, to_collectd}
use sqlalchemy_collectd.CollectdTypes.{text}
use sqlalchemy_collectd.Stream.TimeBucket.{TimeBucket, DictFacade, get_data}
use sqlalchemy_collectd.Stream.Translator.{break_into_individual_values}
use sqlalchemy_collectd.Server.Receiver.{
  Key, Buckets, Receiver, program_of, host_of, key_before, are_comparable, records_at,
  first_interval,
}

module _ (fl : Floats) where
  -- The body of the loops over the groups; `named` is what `build` is given beside the time and the
  -- interval.
  unfoldable pub group_sum : (Slots → Slots) → TimeBucket Key Values → ℤ → List Key → Result Values
  group_sum named b now ks = do
    recs ← records_at b ks
    interval ← first_interval recs
    total ← sum fl recs
    ok (build total (λ d. record (named d) { time = some now; interval = some interval }))

  unfoldable pub group_sums :
      (Slots → Slots) → TimeBucket Key Values → ℤ → List (List Key) → Generator Values
  unfolding group_sum
  group_sums named b now =
      for_each (λ ks. with_result (group_sum named b now ks) (λ v. yield v done))

  abbrev sums_if :
      (Slots → Slots)
      → (List Key → List (List Key))
      → TimeBucket Key Values
      → ℤ
      → Result DictFacade
      → Generator Values
  sums_if named group b now (ok f) =
      if are_comparable (keys b.bucket)
      then group_sums named b now (group (sorted key_before (keys b.bucket)))
      else fail (raise type_error)
  sums_if named group b now (raise e) = fail (raise e)
  sums_if named group b now stuck = fail stuck

  -- both `get_stats_by_progname` and `get_stats_by_hostname`
  unfoldable pub get_stats :
      (Slots → Slots)
      → (List Key → List (List Key))
      → Buckets
      → Text
      → ℤ
      → Buckets × Generator Values
  unfolding group_sums
  get_stats named group buckets name now = elim (lookup name buckets) [
    | none ↦ (buckets, fail (raise key_error))
    | some b ↦
        let (b', r) = get_data b now none in (insert name b' buckets, sums_if named group b' now r)
  ]

  unfoldable pub get_stats_by_progname : Buckets → Text → ℤ → Buckets × Generator Values
  unfolding get_stats
  get_stats_by_progname = get_stats (λ d. d) (groupby program_of)

  unfoldable pub get_stats_by_hostname : Buckets → Text → ℤ → Buckets × Generator Values
  unfolding get_stats
  get_stats_by_hostname =
      get_stats (λ d. record d { plugin_instance = some (text "host") }) (groupby host_of)

  -- one round of the outer loop of `summarize`; the second half runs if the first has not raised
  abbrev then_hosts :
      Receiver → CollectdType → ℤ → Buckets → Generator Values → Buckets × Generator Values
  then_hosts r t now buckets (out, ok _) =
      let (buckets', g) = get_stats_by_hostname buckets t.name now in
      (
        buckets',
        and_then (out, ok tt) (yield_from_each (break_into_individual_values r.translator) g),
      )
  then_hosts r t now buckets (out, raise e) = (buckets, (out, raise e))
  then_hosts r t now buckets (out, stuck) = (buckets, (out, stuck))

  unfoldable pub summarize_type : Receiver → CollectdType → ℤ → Buckets → Buckets × Generator Values
  unfolding get_stats_by_progname get_stats_by_hostname
  summarize_type r t now buckets =
      let (buckets', g) = get_stats_by_progname buckets t.name now in
      then_hosts r t now buckets' (yield_from_each (break_into_individual_values r.translator) g)

  abbrev then_types :
      (Buckets → Buckets × Generator Values)
      → Buckets
      → Generator Values
      → Buckets × Generator Values
  then_types others buckets (out, ok _) =
      let (buckets', g) = others buckets in (buckets', and_then (out, ok tt) g)
  then_types others buckets (out, raise e) = (buckets, (out, raise e))
  then_types others buckets (out, stuck) = (buckets, (out, stuck))

  unfoldable pub summarize_types :
      Receiver → List CollectdType → ℤ → Buckets → Buckets × Generator Values
  unfolding summarize_type
  summarize_types r [] now buckets = (buckets, done)
  summarize_types r (t ∷ ts) now buckets =
      let (buckets', g) = summarize_type r t now buckets in
      then_types (summarize_types r ts now) buckets' g

  unfoldable pub summarize : Receiver → ℤ → Receiver × Generator Values
  unfolding summarize_types
  summarize r now =
      let (buckets, g) = summarize_types r r.collectd_types now r.buckets in
      (record r { buckets = buckets }, g)

  -- `read` of server/plugin.py: the keywords of the objects that collectd is given. What was
  -- dispatched before an exception has been dispatched.
  unfoldable pub read : Receiver → ℤ → Receiver × (List Slots × Result (Unit {0}))
  unfolding summarize
  read r now = let (r', (out, x)) = summarize r now in (r', (map (to_collectd true) out, x))
