-- ===== src/Protocol/Values/Columns.antt =====
-- The data values of a sum of objects that hold integers.
use sqlalchemy_collectd.Base.{
  ℕ, zero, suc, ◌≡◌, refl, sym, ap, ◌∙◌, some, List, [], ◌∷◌, map, length, ℤ, pos, ◌+ℤ◌, +ℤ_assoc,
  +ℤ-zero, Result, ok, arith,
}
use sqlalchemy_collectd.Number.{Num, int, Floats, add_num}
use sqlalchemy_collectd.Protocol.Values.{
  Values, number, object, items, add_values, reverse_coalesce, build, add, sum_onto, sum,
}

abbrev pub ints : List ℤ → List Num
ints = map int

abbrev pub nth : ℕ → List ℤ → ℤ
nth i [] = pos 0
nth zero (x ∷ xs) = x
nth (suc i) (x ∷ xs) = nth i xs

-- The sum of the values at one place.
abbrev pub column : ℕ → List (List ℤ) → ℤ
column i [] = pos 0
column i (r ∷ rs) = nth i r +ℤ column i rs

-- Each object holds its row of integers, and the rows have one length.
abbrev pub HasRows : ℕ → List Values → List (List ℤ) → Type 0
HasRows n [] [] = Unit {0}
HasRows n [] (r ∷ rs) = ⊥
HasRows n (v ∷ vs) [] = ⊥
HasRows n (v ∷ vs) (r ∷ rs) = (v.values ≡ some (ints r)) × (length r ≡ n) × HasRows n vs rs

add_row : List ℤ → List ℤ → List ℤ
add_row (x ∷ xs) (y ∷ ys) = (x +ℤ y) ∷ add_row xs ys
add_row [] ys = []
add_row (x ∷ xs) [] = []

add_values-ints :
    (fl : Floats) (xs ys : List ℤ) → add_values fl (ints xs) (ints ys) ≡ ok (ints (add_row xs ys))
unfolding add_values add_num add_row
add_values-ints fl [] ys = refl
add_values-ints fl (x ∷ xs) [] = refl
add_values-ints fl (x ∷ xs) (y ∷ ys) = rw (add_values-ints fl xs ys)

add_values-zeros :
    (fl : Floats) (xs : List ℤ)
    → add_values fl (ints xs) (map (λ _. int (pos 0)) (ints xs)) ≡ ok (ints xs)
unfolding add_values add_num
add_values-zeros fl [] = refl
add_values-zeros fl (x ∷ xs) = rw (+ℤ-zero x, add_values-zeros fl xs)

length-add_row :
    (n : ℕ) (xs ys : List ℤ) → length xs ≡ n → length ys ≡ n → length (add_row xs ys) ≡ n
unfolding add_row
length-add_row zero [] ys h k = refl
length-add_row (suc n) [] ys h k = absurd (omega arith)
length-add_row n (x ∷ xs) [] h k = absurd (omega arith)
length-add_row zero (x ∷ xs) (y ∷ ys) h k = absurd (omega arith)
length-add_row (suc n) (x ∷ xs) (y ∷ ys) h k =
    ap suc (length-add_row n xs ys (omega arith) (omega arith))

nth-add_row :
    (i : ℕ) (xs ys : List ℤ) → length xs ≡ length ys → nth i (add_row xs ys) ≡ nth i xs +ℤ nth i ys
unfolding add_row
nth-add_row i [] [] h = sym (+ℤ-zero (pos 0))
nth-add_row i [] (y ∷ ys) h = absurd (omega arith)
nth-add_row i (x ∷ xs) [] h = absurd (omega arith)
nth-add_row zero (x ∷ xs) (y ∷ ys) h = refl
nth-add_row (suc i) (x ∷ xs) (y ∷ ys) h = nth-add_row i xs ys (omega arith)

-- The sum succeeds, and what it holds is described place by place.
abbrev pub HasColumns : ℕ → Result Values → (ℕ → ℤ) → Type 0
HasColumns n r f =
    (w : Values) × (zs : List ℤ) × (r ≡ ok w)
    × (w.values ≡ some (ints zs))
    × (length zs ≡ n)
    × ((i : ℕ) → nth i zs ≡ f i)

sum_onto-columns :
    (fl : Floats) (n : ℕ) (acc : Values) (zs : List ℤ) (vs : List Values) (rows : List (List ℤ))
    → acc.values ≡ some (ints zs)
    → length zs ≡ n
    → HasRows n vs rows
    → HasColumns n (sum_onto fl acc vs) (λ i. nth i zs +ℤ column i rows)
unfolding sum_onto
sum_onto-columns fl n acc zs [] [] h l hs = (acc, zs, refl, h, l, λ i. sym (+ℤ-zero (nth i zs)))
sum_onto-columns fl n acc zs [] (r ∷ rs) h l hs = absurd hs
sum_onto-columns fl n acc zs (v ∷ vs) [] h l hs = absurd hs
sum_onto-columns fl n acc zs (v ∷ vs) (r ∷ rs) h l (hv, lr, hs) =
    let acc' : Values =
      build acc (λ d. record (reverse_coalesce v d) { values = some (ints (add_row zs r)) }) in
    let added : add fl acc (object v) ≡ ok acc' =
      unfold add items in rw h (rw hv (rw (add_values-ints fl zs r))) in
    let (w, ws, done, held, size, places) =
      sum_onto-columns fl n acc' (add_row zs r) vs rs (unfold build in refl)
        (length-add_row n zs r l lr) hs in
    (
      w,
      ws,
      rw added done,
      held,
      size,
      λ i.
          places i
          ∙ ap (λ t. t +ℤ column i rs) (nth-add_row i zs r (omega arith))
          ∙ +ℤ_assoc (nth i zs) (nth i r) (column i rs),
    )

-- The sum of one object or more that hold integers, as many each, succeeds and holds at each place
-- the sum of the objects' integers at that place.
pub sum-columns :
    (fl : Floats) (n : ℕ) (v : Values) (vs : List Values) (rows : List (List ℤ))
    → HasRows n (v ∷ vs) rows
    → HasColumns n (sum fl (v ∷ vs)) (λ i. column i rows)
unfolding sum
sum-columns fl n v vs [] hs = absurd hs
sum-columns fl n v vs (r ∷ rs) (hv, lr, hs) =
    let acc : Values = build v (λ d. record d { values = some (ints r) }) in
    let started : add fl v (number (int (pos 0))) ≡ ok acc =
      unfold add items in rw hv (rw (add_values-zeros fl r)) in
    let (w, ws, done, held, size, places) =
      sum_onto-columns fl n acc r vs rs (unfold build in refl) lr hs in
    (w, ws, rw started done, held, size, places)
