-- ===== src/Client/Plugin/Arguments.antt =====
-- client/plugin.py: where the configuration comes from.
use sqlalchemy_collectd.Base.{
  ◌≡◌, refl, ap, inl, inr, beq-eq, beq_refl, sym, ◌∙◌, Bool, true, false, ◌||◌, Bool-cases, Option,
  none, some, if◌then◌else◌, nat_eq, list_eq, ◌==◌, Result, ok, arith,
}
use sqlalchemy_collectd.Base.Dict.{lookup, insert, remove, lookup-insert, lookup-remove}
use sqlalchemy_collectd.Protocol.Bytes.{Text}
use sqlalchemy_collectd.CollectdTypes.{text}
use sqlalchemy_collectd.Client.Plugin.{
  Argument, Arguments, Plugin, coerced, set_config, from_kwargs, from_query, get_argument,
}

-- an argument that is given is converted to this
abbrev pub Agrees :
    Option (Argument → Result Argument) → (Argument → Argument) → Option Argument → Type 0
Agrees coerce conv none = Unit {0}
Agrees coerce conv (some a) = coerced coerce a ≡ ok (conv a)

abbrev pub put : Text → (Argument → Argument) → Option Argument → Arguments → Arguments
put dest conv none d = d
put dest conv (some a) d = insert dest (conv a) d

abbrev pub dropped : Text → Option Argument → Arguments → Arguments
dropped name none d = d
dropped name (some a) d = remove name d

-- the value in the URL, or else the one among the keywords
abbrev pub favored : Option Argument → Option Argument → Option Argument
favored none keyword = keyword
favored (some a) keyword = some a

abbrev pub converted : (Argument → Argument) → Option Argument → Option Argument
converted conv none = none
converted conv (some a) = some (conv a)

abbrev pub is_argument : Text → Bool
is_argument j =
    text "collectd_host" == j
    || text "collectd_port" == j
    || text "collectd_report_host" == j
    || text "collectd_program_name" == j

module _ (sqla14_style : Bool) (name dest : Text) (coerce : Option (Argument → Result Argument))
    (conv : Argument → Argument) where
  from_kwargs-Agrees :
      (o : Option Argument) (kwargs query config : Arguments)
      → lookup name kwargs ≡ o
      → Agrees coerce conv o
      → from_kwargs name dest coerce (record { kwargs = kwargs; query = query; config = config })
        ≡ ok (record {
          kwargs = dropped name o kwargs;
          query = query;
          config = put dest conv o config;
        })
  from_kwargs-Agrees none kwargs query config h agrees = rw (h, from_kwargs) refl
  from_kwargs-Agrees (some a) kwargs query config h agrees = rw (h, from_kwargs) (rw agrees refl)

  from_query-Agrees :
      (o : Option Argument) (kwargs query config : Arguments)
      → lookup name query ≡ o
      → Agrees coerce conv o
      → from_query sqla14_style name dest coerce
          (record { kwargs = kwargs; query = query; config = config })
        ≡ ok (record {
          kwargs = kwargs;
          query = if sqla14_style then query else dropped name o query;
          config = put dest conv o config;
        })
  from_query-Agrees none kwargs query config h agrees = rw (h, from_query) (same sqla14_style)
    where
      same :
          (b : Bool)
          → ◌≡◌ {A = Result Plugin}
              (ok (record { kwargs = kwargs; query = query; config = config }))
              (ok (record { kwargs = kwargs; query = if b then query else query; config = config }))
      same true = refl
      same false = refl
  from_query-Agrees (some a) kwargs query config h agrees = rw (h, from_query) (popped sqla14_style)
    where
      popped :
          (b : Bool)
          → set_config dest coerce a (
              if b
              then record { kwargs = kwargs; query = query; config = config }
              else record { kwargs = kwargs; query = remove name query; config = config })
            ≡ ok (record {
              kwargs = kwargs;
              query = if b then query else remove name query;
              config = insert dest (conv a) config;
            })
      popped true = rw (agrees, set_config) refl
      popped false = rw (agrees, set_config) refl

lookup-dropped :
    (name : Text) (o : Option Argument) (d : Arguments) (j : Text)
    → lookup name d ≡ o
    → lookup j (dropped name o d) ≡ (if name == j then none else lookup j d)
lookup-dropped name none d j h = elim (Bool-cases (name == j)) [
  | inl same ↦ rw same (ap (λ k. lookup k d) (sym (beq-eq name j same)) ∙ h)
  | inr other ↦ rw other refl
]
lookup-dropped name (some a) d j h = lookup-remove name j d

-- what is popped, and where the value stands
pub record Gets (sqla14_style : Bool) (name dest : Text) (conv : Argument → Argument) (p q : Plugin)
    : Type 0 where
  pub config :
      (j : Text)
      → lookup j q.config
        ≡ lookup j (put dest conv (favored (lookup name p.query) (lookup name p.kwargs)) p.config)
  pub kwargs : (j : Text) → lookup j q.kwargs ≡ (if name == j then none else lookup j p.kwargs)
  pub query : (j : Text) → (name == j) ≡ false → lookup j q.query ≡ lookup j p.query

module _ (dest : Text) (conv : Argument → Argument) where
  lookup-put :
      (query keyword : Option Argument) (d : Arguments) (j : Text)
      → lookup j (put dest conv query (put dest conv keyword d))
        ≡ lookup j (put dest conv (favored query keyword) d)
  lookup-put none keyword d j = refl
  lookup-put (some a) none d j = refl
  lookup-put (some a) (some b) d j = ground (
    arith,
    lookup-insert dest j (conv a) (insert dest (conv b) d),
    lookup-insert dest j (conv b) d,
    lookup-insert dest j (conv a) d,
  )

-- `_get_argument` returns where the values that are given convert.
pub get_argument-Gets :
    (sqla14_style : Bool) (name dest : Text) (coerce : Option (Argument → Result Argument))
    (conv : Argument → Argument) (p : Plugin)
    → Agrees coerce conv (lookup name p.kwargs)
    → Agrees coerce conv (lookup name p.query)
    → (q : Plugin) × (get_argument sqla14_style name dest coerce p ≡ ok q)
      × Gets sqla14_style name dest conv p q
unfolding get_argument
get_argument-Gets sqla14_style name dest coerce conv p keyword query = (
  record {
    kwargs = dropped name (lookup name p.kwargs) p.kwargs;
    query = if sqla14_style then p.query else dropped name (lookup name p.query) p.query;
    config = put dest conv (lookup name p.query) (put dest conv (lookup name p.kwargs) p.config);
  },
  rw
      (from_kwargs-Agrees sqla14_style name dest coerce conv (lookup name p.kwargs) p.kwargs p.query
        p.config refl keyword)
      (from_query-Agrees sqla14_style name dest coerce conv (lookup name p.query)
        (dropped name (lookup name p.kwargs) p.kwargs) p.query
        (put dest conv (lookup name p.kwargs) p.config) refl query),
  record {
    config = lookup-put dest conv (lookup name p.query) (lookup name p.kwargs) p.config;
    kwargs = λ j. lookup-dropped name (lookup name p.kwargs) p.kwargs j refl;
    query = λ j other. kept sqla14_style j other;
  },
)
  where
    kept :
        (b : Bool) (j : Text)
        → (name == j) ≡ false
        → lookup j (if b then p.query else dropped name (lookup name p.query) p.query)
          ≡ lookup j p.query
    kept true j other = refl
    kept false j other = lookup-dropped name (lookup name p.query) p.query j refl ∙ rw other refl

module _ {sqla14_style : Bool} {name dest : Text} {conv : Argument → Argument} {p q : Plugin}
    (g : Gets sqla14_style name dest conv p q) where
  pub config-other : (j : Text) → (dest == j) ≡ false → lookup j q.config ≡ lookup j p.config
  config-other j other = g.config j ∙ kept (favored (lookup name p.query) (lookup name p.kwargs))
    where
      kept : (o : Option Argument) → lookup j (put dest conv o p.config) ≡ lookup j p.config
      kept none = refl
      kept (some a) = lookup-insert dest j (conv a) p.config ∙ rw other refl

  pub config-same :
      lookup dest p.config ≡ none
      → lookup dest q.config ≡ converted conv (favored (lookup name p.query) (lookup name p.kwargs))
  config-same absent = g.config dest ∙ got (favored (lookup name p.query) (lookup name p.kwargs))
    where
      got : (o : Option Argument) → lookup dest (put dest conv o p.config) ≡ converted conv o
      got none = absent
      got (some a) = lookup-insert dest dest (conv a) p.config ∙ rw (beq_refl dest) refl

  pub kwargs-other : (j : Text) → (name == j) ≡ false → lookup j q.kwargs ≡ lookup j p.kwargs
  kwargs-other j other = g.kwargs j ∙ rw other refl
