-- ===== src/Base/Sorting/Groups.antt =====
-- `groupby` of a sorted list: one group for each key that occurs.
use mathlib.Core.Path.{◌≡◌, refl}
use mathlib.Core.Bool.{Bool, true, false, ◌||◌}
use mathlib.Core.Logic.{inl, inr}
use mathlib.Core.List.{List, [], ◌∷◌}
use native.Mathlib.Omega.{arith}
use sqlalchemy_collectd.Base.Tests.{if◌then◌else◌, Eq, ◌==◌, Bool-cases}
use sqlalchemy_collectd.Base.Lists.{All, length}
use sqlalchemy_collectd.Base.Sorting.{insert_sorted, sorted, join, groupby}
use sqlalchemy_collectd.Base.Sorting.Order.{IsSorted}

module _ {A G : Type 0} ⦃e : Eq G⦄ (key : A → G) where
  -- the elements with a key, in their order, and whether there is one
  abbrev pub select : G → List A → List A
  select p [] = []
  select p (x ∷ xs) = if key x == p then x ∷ select p xs else select p xs

  abbrev pub occurs : G → List A → Bool
  occurs p [] = false
  occurs p (x ∷ xs) = key x == p || occurs p xs

  abbrev pub has_key : G → List A → Bool
  has_key p [] = false
  has_key p (x ∷ xs) = key x == p

  -- the groups whose first element has the key
  abbrev pub groups_of : G → List (List A) → List (List A)
  groups_of p [] = []
  groups_of p (g ∷ gs) = if has_key p g then g ∷ groups_of p gs else groups_of p gs

  -- Each group has an element, and only elements of one key.
  abbrev pub IsGroup : List A → Type 0
  IsGroup [] = ⊥
  IsGroup (x ∷ xs) = All (λ y. key y ≡ key x) xs

  abbrev StartsAt : List A → List (List A) → Type 0
  StartsAt [] [] = Unit
  StartsAt (x ∷ xs) ((y ∷ ys) ∷ gs) = y ≡ x
  StartsAt _ _ = ⊥

  StartsAt-groupby : (xs : List A) → StartsAt xs (groupby key xs)
  unfolding groupby join
  StartsAt-groupby [] = tt
  StartsAt-groupby (x ∷ xs) = joined x (groupby key xs)
    where
      joined : (x : A) (gs : List (List A)) → StartsAt (x ∷ xs) (join key x gs)
      joined x [] = refl
      joined x ([] ∷ gs) = refl
      joined x ((y ∷ ys) ∷ gs) = elim (Bool-cases (key x == key y)) [
        | inl p ↦ rw p refl
        | inr p ↦ rw p refl
      ]

  pub groupby-IsGroup : (xs : List A) → All IsGroup (groupby key xs)
  unfolding groupby join
  groupby-IsGroup [] = tt
  groupby-IsGroup (x ∷ xs) = joined x (groupby key xs) (groupby-IsGroup xs)
    where
      same :
          (x y : A) (ys : List A)
          → key x ≡ key y
          → All (λ z. key z ≡ key y) ys
          → All (λ z. key z ≡ key x) ys
      same x y [] h hs = tt
      same x y (z ∷ ys) h hs = (cc, same x y ys h hs.1)

      joined : (x : A) (gs : List (List A)) → All IsGroup gs → All IsGroup (join key x gs)
      joined x [] h = (tt, tt)
      joined x ([] ∷ gs) h = absurd h.0
      joined x ((y ∷ ys) ∷ gs) h = elim (Bool-cases (key x == key y)) [
        | inl p ↦
            let q : key x ≡ key y = (e.beq_iff (key x) (key y)).0 p in
            rw p ((cc, same x y ys q h.0), h.1)
        | inr p ↦ rw p (tt, h)
      ]

  -- Where a key occurs again, it occurs next.
  abbrev pub IsGrouped : List A → Type 0
  IsGrouped [] = Unit
  IsGrouped (x ∷ []) = Unit
  IsGrouped (x ∷ y ∷ xs) = (occurs (key x) (y ∷ xs) ≡ true → key y ≡ key x) × IsGrouped (y ∷ xs)

  IsGrouped-tail : (x : A) (xs : List A) → IsGrouped (x ∷ xs) → IsGrouped xs
  IsGrouped-tail x [] h = tt
  IsGrouped-tail x (y ∷ xs) h = h.1

  abbrev pub HasOneGroup : G → List A → List (List A) → Type 0
  HasOneGroup p xs gs = groups_of p gs ≡ (if occurs p xs then select p xs ∷ [] else [])

  pub select-absent : (p : G) (xs : List A) → occurs p xs ≡ false → select p xs ≡ []
  select-absent p [] h = refl
  select-absent p (x ∷ xs) h = ground (arith, select-absent p xs)

  pub select-present :
      (p : G) (xs : List A) → occurs p xs ≡ true → (y : A) × (ys : List A) × (select p xs ≡ y ∷ ys)
  select-present p [] h = cc
  select-present p (x ∷ xs) h = elim (Bool-cases (key x == p)) [
    | inl q ↦ (x, select p xs, rw q refl)
    | inr q ↦ rw q (select-present p xs (rw q at h))
  ]

  pub select-All : (P : A → Type 0) (p : G) (xs : List A) → All P xs → All P (select p xs)
  select-All P p [] h = tt
  select-All P p (x ∷ xs) h = elim (Bool-cases (key x == p)) [
    | inl q ↦ rw q (h.0, select-All P p xs h.1)
    | inr q ↦ rw q (select-All P p xs h.1)
  ]

  join-HasOneGroup :
      (p : G) (x : A) (xs : List A) (gs : List (List A))
      → StartsAt xs gs
      → IsGrouped (x ∷ xs)
      → HasOneGroup p xs gs
      → HasOneGroup p (x ∷ xs) (join key x gs)
  unfolding join
  join-HasOneGroup p x [] [] starts grouped h = ground arith
  join-HasOneGroup p x [] (g ∷ gs) starts grouped h = absurd starts
  join-HasOneGroup p x (y ∷ xs) [] starts grouped h = absurd starts
  join-HasOneGroup p x (y ∷ xs) ([] ∷ gs) starts grouped h = absurd starts
  join-HasOneGroup p x (y ∷ xs) ((z ∷ zs) ∷ gs) starts grouped h = elim (Bool-cases (key x == p)) [
    | inl q ↦
        let r : key x ≡ p = (e.beq_iff (key x) p).0 q in
        ground (
          arith,
          starts,
          h,
          r,
          select-absent p xs,
          rw r at (grouped.0),
          e.beq_iff (key x) (key z),
          e.beq_iff (key z) p,
          e.beq_iff (key y) p,
          e.beq_iff (key x) p,
        )
    | inr q ↦ ground (
      arith,
      starts,
      h,
      q,
      e.beq_iff (key x) (key z),
      e.beq_iff (key x) p,
      e.beq_iff (key z) p,
      e.beq_iff (key y) p,
    )
  ]

  -- In a list that is grouped, every key that occurs has one group, which holds the elements with
  -- the key in their order, and no other key has one.
  pub groupby-HasOneGroup : (p : G) (xs : List A) → IsGrouped xs → HasOneGroup p xs (groupby key xs)
  unfolding groupby
  groupby-HasOneGroup p [] grouped = refl
  groupby-HasOneGroup p (x ∷ xs) grouped =
      join-HasOneGroup p x xs (groupby key xs) (StartsAt-groupby xs) grouped
        (groupby-HasOneGroup p xs (IsGrouped-tail x xs grouped))

  -- A sorted list is grouped, if the elements between two of one key have that key.
  pub IsSorted-IsGrouped :
      {before : A → A → Bool}
      → ((x y z : A) → before y x ≡ false → before z y ≡ false → key z ≡ key x → key y ≡ key x)
      → (xs : List A) → IsSorted before xs
      → IsGrouped xs
  IsSorted-IsGrouped convex [] s = tt
  IsSorted-IsGrouped convex (x ∷ []) s = tt
  IsSorted-IsGrouped {before} convex (x ∷ y ∷ xs) s = (
    λ o. elim (Bool-cases (key y == key x)) [
      | inl p ↦ (e.beq_iff (key y) (key x)).0 p
      | inr p ↦ later xs s.1.0 (rw p at o)
    ],
    IsSorted-IsGrouped convex (y ∷ xs) s.1,
  )
    where
      later :
          (zs : List A)
          → All (λ z. before z y ≡ false) zs
          → occurs (key x) zs ≡ true
          → key y ≡ key x
      later [] hs o = cc
      later (z ∷ zs) hs o = elim (Bool-cases (key z == key x)) [
        | inl p ↦ convex x y z s.0.0 hs.0 ((e.beq_iff (key z) (key x)).0 p)
        | inr p ↦ later zs hs.1 (rw p at o)
      ]

  insert_sorted-select :
      (before : A → A → Bool) (p : G) (x : A) (xs : List A)
      → length (select p (insert_sorted before x xs)) ≡ length (select p (x ∷ xs))
  unfolding insert_sorted
  insert_sorted-select before p x [] = refl
  insert_sorted-select before p x (y ∷ ys) = ground (arith, insert_sorted-select before p x ys)

  -- Sorting keeps as many elements of each key.
  pub sorted-select :
      (before : A → A → Bool) (p : G) (xs : List A)
      → length (select p (sorted before xs)) ≡ length (select p xs)
  unfolding sorted
  sorted-select before p [] = refl
  sorted-select before p (x ∷ xs) =
      ground (arith, insert_sorted-select before p x (sorted before xs), sorted-select before p xs)

module _ {A : Type 0} (P : A → Type 0) (before : A → A → Bool) where
  insert_sorted-All_of : (x : A) (xs : List A) → P x → All P xs → All P (insert_sorted before x xs)
  unfolding insert_sorted
  insert_sorted-All_of x [] h hs = (h, tt)
  insert_sorted-All_of x (y ∷ ys) h hs = elim (Bool-cases (before y x)) [
    | inl q ↦ rw q (hs.0, insert_sorted-All_of x ys h hs.1)
    | inr q ↦ rw q (h, hs)
  ]

  pub sorted-All : (xs : List A) → All P xs → All P (sorted before xs)
  unfolding sorted
  sorted-All [] h = tt
  sorted-All (x ∷ xs) h = insert_sorted-All_of x (sorted before xs) h.0 (sorted-All xs h.1)

module _ {A G : Type 0} ⦃e : Eq G⦄ (key : A → G) (P : A → Type 0) where
  pub groupby-All : (xs : List A) → All P xs → All (All P) (groupby key xs)
  unfolding groupby join
  groupby-All [] h = tt
  groupby-All (x ∷ xs) h = joined x (groupby key xs) h.0 (groupby-All xs h.1)
    where
      joined : (x : A) (gs : List (List A)) → P x → All (All P) gs → All (All P) (join key x gs)
      joined x [] h hs = ((h, tt), tt)
      joined x ([] ∷ gs) h hs = ((h, tt), hs.1)
      joined x ((y ∷ ys) ∷ gs) h hs = elim (Bool-cases (key x == key y)) [
        | inl q ↦ rw q ((h, hs.0), hs.1)
        | inr q ↦ rw q ((h, tt), hs)
      ]
