-- ===== src/Base/Dict.antt =====
-- Python's `dict`: its entries in the order in which their keys were first inserted.
use mathlib.Core.Path.{◌≡◌, refl}
use mathlib.Core.Bool.{Bool, true, false, not, ◌&&◌, ◌||◌}
use mathlib.Core.Option.{Option, none, some}
use mathlib.Core.List.{List, [], ◌∷◌, map}
use native.Mathlib.Omega.{arith}
use sqlalchemy_collectd.Base.Tests.{if◌then◌else◌, Eq, ◌==◌}

abbrev pub Dict {ℓ} : Type ℓ → Type ℓ → Type ℓ
Dict K V = List (K × V)

module _ {ℓ} {K V : Type ℓ} where
  -- `d.keys()`, `d.values()`
  abbrev pub keys : Dict K V → List K
  keys = map (λ e. e.0)

  abbrev pub values : Dict K V → List V
  values = map (λ e. e.1)

module _ {ℓ} {K V : Type ℓ} ⦃e : Eq K⦄ where
  -- `d.get(k)`
  abbrev pub lookup : K → Dict K V → Option V
  lookup k [] = none
  lookup k ((j, v) ∷ d) = if j == k then some v else lookup k d

  -- `d[k] = v`: a known key keeps its place
  abbrev pub insert : K → V → Dict K V → Dict K V
  insert k v [] = (k, v) ∷ []
  insert k v ((j, w) ∷ d) = if j == k then (j, v) ∷ d else (j, w) ∷ insert k v d

  -- `d.pop(k, None)`
  abbrev pub remove : K → Dict K V → Dict K V
  remove k [] = []
  remove k ((j, w) ∷ d) = if j == k then remove k d else (j, w) ∷ remove k d

  -- `k in d`
  abbrev pub contains : K → Dict K V → Bool
  contains k [] = false
  contains k ((j, w) ∷ d) = j == k || contains k d

  pub lookup-insert :
      (k j : K) (v : V) (d : Dict K V)
      → lookup j (insert k v d) ≡ (if k == j then some v else lookup j d)
  lookup-insert k j v [] = refl
  lookup-insert k j v ((i, w) ∷ d) =
      ground (arith, e.beq_iff k j, e.beq_iff i k, e.beq_iff i j, lookup-insert k j v d)

  pub lookup-remove :
      (k j : K) (d : Dict K V) → lookup j (remove k d) ≡ (if k == j then none else lookup j d)
  lookup-remove k j [] = ground arith
  lookup-remove k j ((i, w) ∷ d) =
      ground (arith, e.beq_iff k j, e.beq_iff i k, e.beq_iff i j, lookup-remove k j d)

  pub contains-insert :
      (k j : K) (v : V) (d : Dict K V) → contains j (insert k v d) ≡ (k == j || contains j d)
  contains-insert k j v [] = ground arith
  contains-insert k j v ((i, w) ∷ d) =
      ground (arith, e.beq_iff k j, e.beq_iff i k, e.beq_iff i j, contains-insert k j v d)

  pub contains-remove :
      (k j : K) (d : Dict K V) → contains j (remove k d) ≡ (not (k == j) && contains j d)
  contains-remove k j [] = ground arith
  contains-remove k j ((i, w) ∷ d) =
      ground (arith, e.beq_iff k j, e.beq_iff i k, e.beq_iff i j, contains-remove k j d)

  pub contains-eq-true : (k : K) (d : Dict K V) (v : V) → lookup k d ≡ some v → contains k d ≡ true
  contains-eq-true k [] v h = cc
  contains-eq-true k ((j, w) ∷ d) v h = ground (arith, contains-eq-true k d v)

  pub contains-eq-false : (k : K) (d : Dict K V) → lookup k d ≡ none → contains k d ≡ false
  contains-eq-false k [] h = refl
  contains-eq-false k ((j, w) ∷ d) h = ground (arith, contains-eq-false k d)

  pub lookup_of_contains :
      (k : K) (d : Dict K V) → contains k d ≡ true → (v : V) × (lookup k d ≡ some v)
  lookup_of_contains k [] h = cc
  lookup_of_contains k ((j, w) ∷ d) h = elim (Dec-of (j == k)) [
    | yes p ↦ (w, ground arith)
    | no p ↦ let (v, q) = lookup_of_contains k d (ground arith) in (v, ground arith)
  ]
    where
      Dec-of : (b : Bool) → Dec (b ≡ true)
      Dec-of true = yes refl
      Dec-of false = no (λ h. cc)
