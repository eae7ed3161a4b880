-- ===== src/Base/Generator.antt =====
-- A Python generator that is run to its end: what it has yielded, and whether it then returned or
-- raised.
use mathlib.Core.List.{List, [], ◌∷◌, ◌++◌}
use sqlalchemy_collectd.Base.Errors.{Result, ok, raise, stuck}

abbrev pub Generator {ℓ} : Type ℓ → Type ℓ
Generator A = List A × Result (Unit {0})

module _ {ℓ} {A : Type ℓ} where
  abbrev pub done : Generator A
  done = ([], ok tt)

  abbrev pub fail : Result (Unit {0}) → Generator A
  fail r = ([], r)

  abbrev pub yield : A → Generator A → Generator A
  yield a (xs, r) = (a ∷ xs, r)

  -- the second runs if the first returns
  abbrev pub and_then : Generator A → Generator A → Generator A
  and_then (xs, ok _) (ys, r) = (xs ++ ys, r)
  and_then (xs, raise e) g = (xs, raise e)
  and_then (xs, stuck) g = (xs, stuck)

module _ {ℓ κ} {A : Type ℓ} {B : Type κ} where
  -- `for x in xs: yield from f(x)`
  unfoldable pub for_each : (A → Generator B) → List A → Generator B
  for_each f [] = done
  for_each f (x ∷ xs) = and_then (f x) (for_each f xs)

  -- the same over a generator
  unfoldable pub yield_from_each : (A → Generator B) → Generator A → Generator B
  unfolding for_each
  yield_from_each f (xs, r) = and_then (for_each f xs) (fail r)

  -- a result first: where it is an error the generator raises it
  abbrev pub with_result : Result A → (A → Generator B) → Generator B
  with_result (ok a) f = f a
  with_result (raise e) f = fail (raise e)
  with_result stuck f = fail stuck
