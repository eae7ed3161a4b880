-- ===== src/Base/Sorting/Order.antt =====
-- Strict orders by a Boolean test, and the order of what `sorted` returns.
use mathlib.Core.Path.{◌≡◌, refl}
use mathlib.Core.Bool.{Bool, true, false}
use mathlib.Core.Option.{Option, none, some}
use mathlib.Core.List.{List, [], ◌∷◌}
use native.Mathlib.Omega.{arith}
use sqlalchemy_collectd.Base.Tests.{if◌then◌else◌, Eq, ◌==◌, Bool-cases}
use mathlib.Core.Logic.{inl, inr}
use sqlalchemy_collectd.Base.Lists.{All}
use sqlalchemy_collectd.Base.Sorting.{insert_sorted, sorted}

pub record StrictOrder {ℓ} {A : Type ℓ} (before : A → A → Bool) : Type ℓ where
  pub asymm : (a b : A) → before a b ≡ true → before b a ≡ false
  pub le_trans : (a b c : A) → before b a ≡ false → before c b ≡ false → before c a ≡ false
  pub antisym : (a b : A) → before a b ≡ false → before b a ≡ false → a ≡ b

module _ {ℓ} {A : Type ℓ} (before : A → A → Bool) where
  -- no element stands behind one that is greater
  abbrev pub IsSorted : List A → Type ℓ
  IsSorted [] = Unit
  IsSorted (x ∷ xs) = All (λ y. before y x ≡ false) xs × IsSorted xs

module _ {ℓ} {A : Type ℓ} {before : A → A → Bool} (o : StrictOrder before) where
  insert_sorted-All :
      (x y : A) (xs : List A)
      → before x y ≡ false
      → All (λ z. before z y ≡ false) xs
      → All (λ z. before z y ≡ false) (insert_sorted before x xs)
  unfolding insert_sorted
  insert_sorted-All x y [] h hs = (h, tt)
  insert_sorted-All x y (z ∷ xs) h hs = elim (Bool-cases (before z x)) [
    | inl p ↦ rw p (hs.0, insert_sorted-All x y xs h hs.1)
    | inr p ↦ rw p (h, hs)
  ]

  All-le_trans :
      (x y : A) (xs : List A)
      → before y x ≡ false
      → All (λ z. before z y ≡ false) xs
      → All (λ z. before z x ≡ false) xs
  All-le_trans x y [] h hs = tt
  All-le_trans x y (z ∷ xs) h hs = (o.le_trans x y z h hs.0, All-le_trans x y xs h hs.1)

  insert_sorted-IsSorted :
      (x : A) (xs : List A) → IsSorted before xs → IsSorted before (insert_sorted before x xs)
  unfolding insert_sorted
  insert_sorted-IsSorted x [] s = (tt, tt)
  insert_sorted-IsSorted x (y ∷ ys) s = elim (Bool-cases (before y x)) [
    | inl p ↦ rw p (insert_sorted-All x y ys (o.asymm y x p) s.0, insert_sorted-IsSorted x ys s.1)
    | inr p ↦ rw p ((p, All-le_trans x y ys p s.0), s)
  ]

  pub sorted-IsSorted : (xs : List A) → IsSorted before (sorted before xs)
  unfolding sorted
  sorted-IsSorted [] = tt
  sorted-IsSorted (x ∷ xs) = insert_sorted-IsSorted x (sorted before xs) (sorted-IsSorted xs)

-- The order of options with `none` first, and that of pairs by the first component first.
module _ {ℓ} {A : Type ℓ} (before : A → A → Bool) where
  abbrev pub option_before : Option A → Option A → Bool
  option_before none none = false
  option_before none (some b) = true
  option_before (some a) none = false
  option_before (some a) (some b) = before a b

  pub option_before-StrictOrder : StrictOrder before → StrictOrder option_before
  option_before-StrictOrder o = record {
    asymm = asymmetric;
    le_trans = transitive;
    antisym = antisymmetric;
  }
    where
      asymmetric : (a b : Option A) → option_before a b ≡ true → option_before b a ≡ false
      asymmetric none none h = refl
      asymmetric none (some b) h = refl
      asymmetric (some a) none h = cc
      asymmetric (some a) (some b) h = o.asymm a b h

      transitive :
          (a b c : Option A)
          → option_before b a ≡ false
          → option_before c b ≡ false
          → option_before c a ≡ false
      transitive none none none h k = refl
      transitive none none (some c) h k = refl
      transitive none (some b) none h k = refl
      transitive none (some b) (some c) h k = refl
      transitive (some a) none c h k = cc
      transitive (some a) (some b) none h k = cc
      transitive (some a) (some b) (some c) h k = o.le_trans a b c h k

      antisymmetric :
          (a b : Option A) → option_before a b ≡ false → option_before b a ≡ false → a ≡ b
      antisymmetric none none h k = refl
      antisymmetric none (some b) h k = cc
      antisymmetric (some a) none h k = cc
      antisymmetric (some a) (some b) h k = cc (o.antisym a b h k)

module _ {ℓ} {A B : Type ℓ} ⦃e : Eq A⦄ (before : A → A → Bool) (within : B → B → Bool) where
  abbrev pub pair_before : A × B → A × B → Bool
  pair_before (a, b) (a', b') = if a == a' then within b b' else before a a'

  pub pair_before-StrictOrder : StrictOrder before → StrictOrder within → StrictOrder pair_before
  pair_before-StrictOrder o w = record {
    asymm = asymmetric;
    le_trans = transitive;
    antisym = antisymmetric;
  }
    where
      asymmetric : (p q : A × B) → pair_before p q ≡ true → pair_before q p ≡ false
      asymmetric (a, b) (a', b') h =
          ground (arith, e.beq_iff a a', e.beq_iff a' a, o.asymm a a', w.asymm b b')

      transitive :
          (p q r : A × B)
          → pair_before q p ≡ false
          → pair_before r q ≡ false
          → pair_before r p ≡ false
      transitive (a, b) (a', b') (a₂, b₂) h k = ground (
        arith,
        e.beq_iff a' a,
        e.beq_iff a₂ a',
        e.beq_iff a₂ a,
        o.le_trans a a' a₂,
        o.antisym a' a,
        o.antisym a a',
        o.antisym a₂ a',
        o.asymm a' a,
        o.asymm a a',
        w.le_trans b b' b₂,
      )

      antisymmetric : (p q : A × B) → pair_before p q ≡ false → pair_before q p ≡ false → p ≡ q
      antisymmetric (a, b) (a', b') h k =
          ground (arith, e.beq_iff a a', e.beq_iff a' a, o.antisym a a', w.antisym b b')
