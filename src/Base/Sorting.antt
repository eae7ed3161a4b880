-- ===== src/Base/Sorting.antt =====
-- Python's `sorted` and `itertools.groupby`, over a Boolean order and a key.
pub mod Order
pub mod Groups
use mathlib.Core.Bool.{Bool}
use mathlib.Core.List.{List, [], ◌∷◌}
use sqlalchemy_collectd.Base.Tests.{if◌then◌else◌, Eq, ◌==◌}

module _ {ℓ} {A : Type ℓ} (before : A → A → Bool) where
  -- `before x y` is `x < y`; equal elements keep their order
  insert_sorted : A → List A → List A
  insert_sorted x [] = x ∷ []
  insert_sorted x (y ∷ ys) = if before y x then y ∷ insert_sorted x ys else x ∷ y ∷ ys

  unfoldable pub sorted : List A → List A
  unfolding insert_sorted
  sorted [] = []
  sorted (x ∷ xs) = insert_sorted x (sorted xs)

module _ {ℓ} {A G : Type ℓ} ⦃e : Eq G⦄ (key : A → G) where
  -- An element joins the group behind it if they have the same key.
  join : A → List (List A) → List (List A)
  join x [] = (x ∷ []) ∷ []
  join x ([] ∷ gs) = (x ∷ []) ∷ gs
  join x ((y ∷ ys) ∷ gs) = if key x == key y then (x ∷ y ∷ ys) ∷ gs else (x ∷ []) ∷ (y ∷ ys) ∷ gs

  -- the groups of neighbours with the same key
  unfoldable pub groupby : List A → List (List A)
  unfolding join
  groupby [] = []
  groupby (x ∷ xs) = join x (groupby xs)
