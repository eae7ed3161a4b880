-- ===== src/Client/Plugin.antt =====
-- client/plugin.py: the arguments of the plugin, and its start for an engine.
pub mod Arguments
pub mod Favored
pub mod Start
use sqlalchemy_collectd.Base.{
  ℕ, ◌+◌, ◌-◌, ◌*◌, Bool, true, false, ◌&&◌, ◌||◌, Option, none, some, List, [], ◌∷◌, if◌then◌else◌,
  nat_beq, leb, nat_eq, list_eq, pair_eq, ℤ, pos, negsuc, ◌-ℤ◌, Result, ok, raise, value_error,
  ◌>>=◌,
}
use mathlib.Core.List.{reverse}
use sqlalchemy_collectd.Base.Dict.{Dict, lookup, insert, remove}
use sqlalchemy_collectd.Protocol.Bytes.{Text}
use sqlalchemy_collectd.CollectdTypes.{text}
use sqlalchemy_collectd.Client.Collector.{CollectionTarget, collection_for_name, add_collector}
use sqlalchemy_collectd.Client.Sender.{SenderKey, Sender, get_sender}
use sqlalchemy_collectd.Client.Worker.{add_target}

-- What an argument holds: URLs give texts, keywords give texts or a number.
pub data Argument : Type 0 where
  str : Text → Argument
  number : ℤ → Argument

abbrev pub is_digit : ℕ → Bool
is_digit c = leb b'0' c && leb c b'9'

abbrev pub is_space : ℕ → Bool
is_space c = (leb 9 c && leb c 13) || (leb 28 c && leb c 32)

-- the digits of a number, where single underscores may stand between them
unfoldable pub digits : Text → ℕ → Bool → Option ℕ
digits [] n behind_digit = if behind_digit then some n else none
digits (c ∷ cs) n behind_digit =
    let more = digits cs (10 * n + (c - b'0')) true in
    let other = digits cs n false in
    if is_digit c then more else if nat_beq c b'_' && behind_digit then other else none

abbrev pub strip_left : Text → Text
strip_left [] = []
strip_left (c ∷ cs) = if is_space c then strip_left cs else c ∷ cs

abbrev pub signed : Text → Option ℤ
unfolding digits
signed [] = none
signed (c ∷ cs) =
    if nat_beq c b'-'
    then elim (digits cs 0 false) [ none ↦ none | some n ↦ some (pos 0 -ℤ pos n) ]
    else if nat_beq c b'+'
    then elim (digits cs 0 false) [ none ↦ none | some n ↦ some (pos n) ]
    else elim (digits (c ∷ cs) 0 false) [ none ↦ none | some n ↦ some (pos n) ]

-- `int`, of texts in ASCII
unfoldable pub int_of : Argument → Result Argument
unfolding signed
int_of (number n) = ok (number n)
int_of (str t) = elim (signed (reverse (strip_left (reverse (strip_left t))))) [
  | none ↦ raise value_error
  | some n ↦ ok (number n)
]

abbrev pub Arguments : Type 0
Arguments = Dict Text Argument

-- The two dictionaries that `_get_argument` reads and pops from, and the one it writes.
pub record Plugin : Type 0 where
  pub kwargs : Arguments
  pub query : Arguments
  pub config : Arguments

-- `coerce_`, which may be left out
abbrev pub coerced : Option (Argument → Result Argument) → Argument → Result Argument
coerced none a = ok a
coerced (some coerce) a = coerce a

-- a value that was found, in the configuration
abbrev pub set_config :
    Text → Option (Argument → Result Argument) → Argument → Plugin → Result Plugin
set_config dest_name coerce a p = do
  b ← coerced coerce a
  ok (record p { config = insert dest_name b p.config })

abbrev pub from_kwargs : Text → Text → Option (Argument → Result Argument) → Plugin → Result Plugin
from_kwargs name dest_name coerce p = elim (lookup name p.kwargs) [
  | none ↦ ok p
  | some a ↦ set_config dest_name coerce a (record p { kwargs = remove name p.kwargs })
]

-- From SQLAlchemy 1.4 on the query stays as it is.
abbrev pub from_query :
    Bool → Text → Text → Option (Argument → Result Argument) → Plugin → Result Plugin
from_query sqla14_style name dest_name coerce p = elim (lookup name p.query) [
  | none ↦ ok p
  | some a ↦
      set_config dest_name coerce a
        (if sqla14_style then p else record p { query = remove name p.query })
]

-- `_get_argument`
unfoldable pub get_argument :
    Bool → Text → Text → Option (Argument → Result Argument) → Plugin → Result Plugin
get_argument sqla14_style name dest_name coerce p = do
  q ← from_kwargs name dest_name coerce p
  from_query sqla14_style name dest_name coerce q

-- `Plugin.__init__`
unfoldable pub init : Bool → Arguments → Arguments → Result Plugin
unfolding get_argument int_of
init sqla14_style query kwargs = do
  p ←
      get_argument sqla14_style (text "collectd_host") (text "collectd_host") none
        (record { kwargs = kwargs; query = query; config = [] })
  q ← get_argument sqla14_style (text "collectd_port") (text "collectd_port") (some int_of) p
  r ← get_argument sqla14_style (text "collectd_report_host") (text "hostname") none q
  get_argument sqla14_style (text "collectd_program_name") (text "progname") none r

-- What the plugins of a process share. The keys of the worker stand for a target and a sender.
pub record Shared : Type 0 where
  pub targets : Dict Text CollectionTarget
  pub senders : Dict SenderKey Sender
  pub worker : Dict (Text × SenderKey) ℤ

abbrev pub or_else {ℓ} : {A : Type ℓ} → Option A → A → A
or_else none a = a
or_else (some b) a = b

-- a target and a sender that are there, for a new collector
unfoldable pub register : ℕ → Text → SenderKey → Shared → Shared
unfolding collection_for_name add_collector get_sender add_target
register collector progname key s =
    let (targets, target) = collection_for_name s.targets progname in
    record {
      targets = insert progname (add_collector collector target) targets;
      senders = (get_sender s.senders key).0;
      worker = add_target (progname, key) s.worker;
    }

-- The arguments of `start_plugin`; the number is the collector that it makes for the engine.
pub record Engine : Type 0 where
  pub collector : ℕ
  pub hostname : Option Text
  pub progname : Option Text
  pub collectd_host : Option Text
  pub collectd_port : Option ℕ

-- the names that the system gives
pub record System : Type 0 where
  pub gethostname : Text
  pub program : Text

abbrev pub target_name : System → Engine → Text
target_name system e = or_else e.progname system.program

abbrev pub sender_key : System → Engine → SenderKey
sender_key system e = (
  (or_else e.hostname system.gethostname, target_name system e),
  (or_else e.collectd_host (text "localhost"), or_else e.collectd_port 25827),
)

unfoldable pub start_plugin : System → Engine → Shared → Shared
unfolding register
start_plugin system e = register e.collector (target_name system e) (sender_key system e)

-- engines that are made one after the other
unfoldable pub start_each : System → List Engine → Shared → Shared
unfolding start_plugin
start_each system [] s = s
start_each system (e ∷ es) s = start_each system es (start_plugin system e s)

-- before the first engine
abbrev pub nothing_shared : Shared
nothing_shared = record { targets = []; senders = []; worker = [] }
