-- ===== src/Protocol/Values.antt =====
-- The class `Values` of protocol.py.
pub mod Sums
pub mod Columns
pub mod Shapes
use sqlalchemy_collectd.Base.{
  ℕ, ◌+◌, ◌/◌, ◌^◌, Bool, Option, none, some, List, [], ◌∷◌, map, if◌then◌else◌, ◌==◌, Eq, nat_eq,
  list_eq, option_eq, int_eq, length, ℤ, pos, negsuc, ◌*ℤ◌, sub_ℕ, Result, ok, raise, type_error,
  attribute_error, ◌>>=◌,
}
use sqlalchemy_collectd.Number.{Num, int, float, Floats, add_num}
use sqlalchemy_collectd.Protocol.Bytes.{Text}

-- A time is a Python number of seconds, given in ticks of 2^-22 seconds: each double between 2^30
-- and 2^31, the values of `time.time()` from 2004 to 2038, is a whole number of ticks, and so is
-- each integer.
abbrev pub ticks : ℕ
ticks = 2 ^ 22

-- `int(t)`, which drops the fraction towards zero
abbrev pub int_of : ℤ → ℤ
int_of (pos n) = pos (n / ticks)
int_of (negsuc n) = sub_ℕ 0 ((n + 1) / ticks)

-- an integer as a time
abbrev pub of_seconds : ℤ → ℤ
of_seconds z = z *ℤ pos ticks

abbrev pub default_interval : ℤ
default_interval = pos 10

-- The slots as keywords of the constructor; `none` is `None` or a keyword left out.
pub record Slots : Type 0 where
  pub type : Option Text
  pub type_instance : Option Text
  pub plugin : Option Text
  pub plugin_instance : Option Text
  pub host : Option Text
  pub time : Option ℤ
  pub interval : Option ℤ
  pub values : Option (List Num)

abbrev pub no_slots : Slots
no_slots = record {
  type = none;
  type_instance = none;
  plugin = none;
  plugin_instance = none;
  host = none;
  time = none;
  interval = none;
  values = none;
}

-- The constructor leaves no object without an interval.
pub record Values : Type 0 where
  pub type : Option Text
  pub type_instance : Option Text
  pub plugin : Option Text
  pub plugin_instance : Option Text
  pub host : Option Text
  pub time : Option ℤ
  pub interval : ℤ
  pub values : Option (List Num)

abbrev or_default : Option ℤ → ℤ
or_default none = default_interval
or_default (some i) = i

unfoldable pub init : Slots → Values
init kw = record {
  type = kw.type;
  type_instance = kw.type_instance;
  plugin = kw.plugin;
  plugin_instance = kw.plugin_instance;
  host = kw.host;
  time = kw.time;
  interval = or_default kw.interval;
  values = kw.values;
}

unfoldable pub asdict : Values → Slots
asdict v = record {
  type = v.type;
  type_instance = v.type_instance;
  plugin = v.plugin;
  plugin_instance = v.plugin_instance;
  host = v.host;
  time = v.time;
  interval = some v.interval;
  values = v.values;
}

-- `build(**kw)`: the keywords are an update of the slots.
unfoldable pub build : Values → (Slots → Slots) → Values
unfolding init asdict
build v kw = init (kw (asdict v))

-- The right operand of `+`: another object, or a number.
pub data Operand : Type 0 where
  number : Num → Operand
  object : Values → Operand

-- iteration over `None` is a TypeError
unfoldable pub items : Option (List Num) → Result (List Num)
items none = raise type_error
items (some xs) = ok xs

module _ (fl : Floats) where
  -- `[v + o for v, o in zip(xs, ys)]`
  unfoldable pub add_values : List Num → List Num → Result (List Num)
  add_values (x ∷ xs) (y ∷ ys) = do z ← add_num fl x y; zs ← add_values xs ys; ok (z ∷ zs)
  add_values [] ys = ok []
  add_values (x ∷ xs) [] = ok []

-- a slot in which the operands differ becomes `None`
abbrev pub coalesce : {A : Type 0} ⦃e : Eq A⦄ → Option A → Option A → Option A
coalesce a b = if a == b then a else none

abbrev pub reverse_coalesce : Values → Slots → Slots
reverse_coalesce other d = record d {
  type_instance = coalesce d.type_instance other.type_instance;
  host = coalesce d.host other.host;
  time = coalesce d.time other.time;
  interval = coalesce d.interval (some other.interval);
  plugin_instance = coalesce d.plugin_instance other.plugin_instance;
  plugin = coalesce d.plugin other.plugin;
  type = coalesce d.type other.type;
}

module _ (fl : Floats) where
  -- `self + other`; `other + self` is the same
  unfoldable pub add : Values → Operand → Result Values
  unfolding items build add_values
  add self (number n) = do
    xs ← items self.values
    zs ← add_values fl xs (map (λ _. n) xs)
    ok (build self (λ d. record d { values = some zs }))
  add self (object other) = do
    xs ← items self.values
    ys ← items other.values
    zs ← add_values fl xs ys
    ok (build self (λ d. record (reverse_coalesce other d) { values = some zs }))

  unfoldable pub sum_onto : Values → List Values → Result Values
  sum_onto acc [] = ok acc
  sum_onto acc (v ∷ vs) = do acc' ← add acc (object v); sum_onto acc' vs

  -- `sum(recs)`, which begins with `0 + recs[0]`. The sum of no objects is the number 0, and has
  -- none of the methods that its callers use.
  unfoldable pub sum : List Values → Result Values
  unfolding sum_onto
  sum [] = raise attribute_error
  sum (v ∷ vs) = do acc ← add v (number (int (pos 0))); sum_onto acc vs

-- `from_collectd_values`: the slots of collectd's own object are copied
unfoldable pub from_collectd_values : Slots → Values
unfolding init
from_collectd_values cd = init cd

-- `send_to_collectd`: the keywords of the object that is dispatched
unfoldable pub to_collectd : Bool → Values → Slots
unfolding asdict
to_collectd use_configured_interval v =
    let d = asdict v in if use_configured_interval then record d { interval = some (pos 0) } else d
