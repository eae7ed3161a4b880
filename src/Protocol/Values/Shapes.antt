-- ===== src/Protocol/Values/Shapes.antt =====
-- Sums of objects whose values are ints and floats at the same places: they raise nothing.
use sqlalchemy_collectd.Base.{
  ℕ, Bool, true, false, ◌≡◌, refl, some, List, [], ◌∷◌, map, pos, ok, All, arith,
}
use sqlalchemy_collectd.Number.{Num, int, float, Floats, add_num, to_float}
use sqlalchemy_collectd.Protocol.Values.{
  Values, number, object, items, add_values, reverse_coalesce, build, add, sum_onto, sum,
}

-- a shape has `true` where an int is, and `false` where a float is
abbrev pub HasKind : Bool → Num → Type 0
HasKind true (int z) = Unit {0}
HasKind true (float b) = ⊥
HasKind false (int z) = ⊥
HasKind false (float b) = Unit {0}

abbrev pub HasShape : List Bool → List Num → Type 0
HasShape [] [] = Unit {0}
HasShape [] (x ∷ xs) = ⊥
HasShape (k ∷ ks) [] = ⊥
HasShape (k ∷ ks) (x ∷ xs) = HasKind k x × HasShape ks xs

abbrev pub IsShaped : List Bool → Values → Type 0
IsShaped ks v = (xs : List Num) × (v.values ≡ some xs) × HasShape ks xs

module _ (fl : Floats) where
  add_num-HasKind :
      (k : Bool) (x y : Num)
      → HasKind k x
      → HasKind k y
      → (z : Num) × (add_num fl x y ≡ ok z) × HasKind k z
  unfolding add_num
  add_num-HasKind true (int a) (int b) h k = (_, refl, tt)
  add_num-HasKind true (int a) (float b) h k = absurd k
  add_num-HasKind true (float a) y h k = absurd h
  add_num-HasKind false (int a) y h k = absurd h
  add_num-HasKind false (float a) (int b) h k = absurd k
  add_num-HasKind false (float a) (float b) h k = (_, refl, tt)

  add_num-zero :
      (k : Bool) (x : Num)
      → HasKind k x
      → (z : Num) × (add_num fl x (int (pos 0)) ≡ ok z) × HasKind k z
  unfolding add_num to_float
  add_num-zero true (int a) h = (_, refl, tt)
  add_num-zero true (float a) h = absurd h
  add_num-zero false (int a) h = absurd h
  add_num-zero false (float a) h =
      let (b, e) = fl.of_int_small 0 (omega arith) in (float (fl.add a b), converted b e, tt)
    where
      converted :
          (b : ℕ)
          → fl.of_int (pos 0) ≡ some b
          → add_num fl (float a) (int (pos 0)) ≡ ok (float (fl.add a b))
      converted b e = ground arith

  add_values-HasShape :
      (ks : List Bool) (xs ys : List Num)
      → HasShape ks xs
      → HasShape ks ys
      → (zs : List Num) × (add_values fl xs ys ≡ ok zs) × HasShape ks zs
  unfolding add_values
  add_values-HasShape [] [] [] h k = ([], refl, tt)
  add_values-HasShape [] [] (y ∷ ys) h k = absurd k
  add_values-HasShape [] (x ∷ xs) ys h k = absurd h
  add_values-HasShape (a ∷ ks) [] ys h k = absurd h
  add_values-HasShape (a ∷ ks) (x ∷ xs) [] h k = absurd k
  add_values-HasShape (a ∷ ks) (x ∷ xs) (y ∷ ys) h k =
      let (z, p, hz) = add_num-HasKind a x y h.0 k.0 in
      let (zs, q, hzs) = add_values-HasShape ks xs ys h.1 k.1 in (z ∷ zs, rw (p, q) refl, (hz, hzs))

  add_values-zero :
      (ks : List Bool) (xs : List Num)
      → HasShape ks xs
      → (zs : List Num) × (add_values fl xs (map (λ _. int (pos 0)) xs) ≡ ok zs) × HasShape ks zs
  unfolding add_values
  add_values-zero [] [] h = ([], refl, tt)
  add_values-zero [] (x ∷ xs) h = absurd h
  add_values-zero (a ∷ ks) [] h = absurd h
  add_values-zero (a ∷ ks) (x ∷ xs) h =
      let (z, p, hz) = add_num-zero a x h.0 in
      let (zs, q, hzs) = add_values-zero ks xs h.1 in (z ∷ zs, rw (p, q) refl, (hz, hzs))

  sum_onto-IsShaped :
      (ks : List Bool) (acc : Values) (vs : List Values)
      → IsShaped ks acc
      → All (IsShaped ks) vs
      → (w : Values) × (sum_onto fl acc vs ≡ ok w) × IsShaped ks w
  unfolding sum_onto
  sum_onto-IsShaped ks acc [] h hs = (acc, refl, h)
  sum_onto-IsShaped ks acc (v ∷ vs) (xs, p, hx) ((ys, q, hy), hs) =
      let (zs, r, hz) = add_values-HasShape ks xs ys hx hy in
      let acc' : Values = build acc (λ d. record (reverse_coalesce v d) { values = some zs }) in
      let added : add fl acc (object v) ≡ ok acc' = unfold add items in rw p (rw q (rw r)) in
      let (w, done, shaped) = sum_onto-IsShaped ks acc' vs (zs, (unfold build in refl), hz) hs in
      (w, rw added done, shaped)

  -- The sum of one object or more of one shape raises nothing, and has that shape.
  pub sum-IsShaped :
      (ks : List Bool) (v : Values) (vs : List Values)
      → All (IsShaped ks) (v ∷ vs)
      → (w : Values) × (sum fl (v ∷ vs) ≡ ok w) × IsShaped ks w
  unfolding sum
  sum-IsShaped ks v vs ((xs, p, hx), hs) =
      let (zs, r, hz) = add_values-zero ks xs hx in
      let acc : Values = build v (λ d. record d { values = some zs }) in
      let started : add fl v (number (int (pos 0))) ≡ ok acc = unfold add items in rw p (rw r) in
      let (w, done, shaped) = sum_onto-IsShaped ks acc vs (zs, (unfold build in refl), hz) hs in
      (w, rw started done, shaped)
