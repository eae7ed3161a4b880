-- ===== src/Protocol/Values/Sums.antt =====
-- `sum` over `Values` objects: the data values add up, and a slot survives where all objects agree.
use sqlalchemy_collectd.Base.{
  ◌≡◌, ◌↔◌, refl, ap, ◌∙◌, Option, none, some, List, [], ◌∷◌, map, All, Eq, nat_eq, list_eq,
  option_eq, int_eq, pos, ok, >>=-eq-ok, ok-injective, sym, arith,
}
use sqlalchemy_collectd.Number.{Num, int, Floats}
use sqlalchemy_collectd.Protocol.Values.{
  Values, number, object, build, items, add_values, coalesce, reverse_coalesce, add, sum_onto, sum,
}

pub coalesce-eq-some :
    {A : Type 0} ⦃e : Eq A⦄ (a b : Option A) (x : A)
    → (coalesce a b ≡ some x) ↔ ((a ≡ some x) × (b ≡ some x))
coalesce-eq-some ⦃e⦄ none none x = ground arith
coalesce-eq-some ⦃e⦄ none (some b) x = ground arith
coalesce-eq-some ⦃e⦄ (some a) none x = ground arith
coalesce-eq-some ⦃e⦄ (some a) (some b) x = ground (arith, e.beq_iff a b)

-- A slot that `+` coalesces.
module _ {A : Type 0} ⦃e : Eq A⦄ (fl : Floats) (slot : Values → Option A) where
  abbrev Coalesces : Type 0
  Coalesces = (a b c : Values) → add fl a (object b) ≡ ok c → slot c ≡ coalesce (slot a) (slot b)

  abbrev KeepsSlot : Type 0
  KeepsSlot = (a b : Values) → add fl a (number (int (pos 0))) ≡ ok b → slot b ≡ slot a

  sum_onto-slot :
      Coalesces
      → (acc : Values) (vs : List Values) (w : Values) (x : A) → sum_onto fl acc vs ≡ ok w
      → (slot w ≡ some x) ↔ ((slot acc ≡ some x) × All (λ v. slot v ≡ some x) vs)
  unfolding sum_onto
  sum_onto-slot co acc [] w x h = ground arith
  sum_onto-slot co acc (v ∷ vs) w x h =
      let (acc', added, more) = >>=-eq-ok (add fl acc (object v)) _ h in
      let there = sum_onto-slot co acc' vs w x more in
      let merged = co acc v acc' added in
      let split = coalesce-eq-some (slot acc) (slot v) x in
      (
        (λ p.
            let (q, others) = there.0 p in
            let (a, b) = split.0 (merged' merged q) in (a, (b, others))),
        λ (a, rest). there.1 (merged ∙ split.1 (a, rest.0), rest.1),
      )
    where
      merged' : {u m : Option A} → u ≡ m → u ≡ some x → m ≡ some x
      merged' p q = cc

  sum-slot :
      Coalesces
      → KeepsSlot
      → (vs : List Values) (w : Values) (x : A) → sum fl vs ≡ ok w
      → (slot w ≡ some x) ↔ All (λ v. slot v ≡ some x) vs
  unfolding sum
  sum-slot co keep [] w x h = cc
  sum-slot co keep (v ∷ vs) w x h =
      let (acc, added, more) = >>=-eq-ok (add fl v (number (int (pos 0)))) _ h in
      let there = sum_onto-slot co acc vs w x more in
      let kept = keep v acc added in
      (
        λ p. let (q, others) = there.0 p in (swap kept q, others),
        λ all. there.1 (kept ∙ all.0, all.1),
      )
    where
      swap : {u m : Option A} → u ≡ m → u ≡ some x → m ≡ some x
      swap p q = cc

pub items-eq-ok : (o : Option (List Num)) {xs : List Num} → items o ≡ ok xs → o ≡ some xs
unfolding items
items-eq-ok none h = cc
items-eq-ok (some ys) h = cc

pub add-object :
    (fl : Floats) (a b c : Values)
    → add fl a (object b) ≡ ok c
    → (xs ys zs : List Num) × (a.values ≡ some xs)
      × (b.values ≡ some ys)
      × (add_values fl xs ys ≡ ok zs)
      × (c ≡ build a (λ d. record (reverse_coalesce b d) { values = some zs }))
unfolding add
add-object fl a b c h =
    let (xs, p, h1) = >>=-eq-ok (items a.values) _ h in
    let (ys, q, h2) = >>=-eq-ok (items b.values) _ h1 in
    let (zs, r, done) = >>=-eq-ok (add_values fl xs ys) _ h2 in
    (xs, ys, zs, items-eq-ok a.values p, items-eq-ok b.values q, r, sym (ok-injective done))

pub add-number :
    (fl : Floats) (a b : Values) (n : Num)
    → add fl a (number n) ≡ ok b
    → (xs zs : List Num) × (a.values ≡ some xs)
      × (add_values fl xs (map (λ _. n) xs) ≡ ok zs)
      × (b ≡ build a (λ d. record d { values = some zs }))
unfolding add
add-number fl a b n h =
    let (xs, p, h1) = >>=-eq-ok (items a.values) _ h in
    let (zs, r, done) = >>=-eq-ok (add_values fl xs (map (λ _. n) xs)) _ h1 in
    (xs, zs, items-eq-ok a.values p, r, sym (ok-injective done))

-- A slot that keeps its value `x` in the sum exactly where each object has it.
abbrev pub Agrees : {A : Type 0} → (Values → Option A) → List Values → Values → Type 0
Agrees {A} slot vs w = (x : A) → (slot w ≡ some x) ↔ All (λ v. slot v ≡ some x) vs

module _ (fl : Floats) (vs : List Values) (w : Values) (h : sum fl vs ≡ ok w) where
  agrees :
      {A : Type 0} ⦃e : Eq A⦄ (slot : Values → Option A)
      → ((a b : Values) (zs : List Num)
          → slot (build a (λ d. record (reverse_coalesce b d) { values = some zs }))
            ≡ coalesce (slot a) (slot b))
      → ((a : Values) (zs : List Num)
          → slot (build a (λ d. record d { values = some zs })) ≡ slot a)
      → Agrees slot vs w
  agrees slot merges keeps x =
      sum-slot fl slot
        (λ a b c added.
          let (xs, ys, zs, p, q, r, e) = add-object fl a b c added in ap slot e ∙ merges a b zs)
        (λ a b added.
          let (xs, zs, p, r, e) = add-number fl a b (int (pos 0)) added in ap slot e ∙ keeps a zs)
        vs w x h

  -- A sum of objects has a text or a time `x` in a slot exactly if each of the objects has `x`
  -- there, for the type, the type instance, the plugin, the plugin instance, the host and the time.
  pub sum-Agrees :
      Agrees (λ v. v.type) vs w
      × Agrees (λ v. v.type_instance) vs w
      × Agrees (λ v. v.plugin) vs w
      × Agrees (λ v. v.plugin_instance) vs w
      × Agrees (λ v. v.host) vs w
      × Agrees (λ v. v.time) vs w
  unfolding build
  sum-Agrees = (
    agrees (λ v. v.type) (λ a b zs. refl) (λ a zs. refl),
    agrees (λ v. v.type_instance) (λ a b zs. refl) (λ a zs. refl),
    agrees (λ v. v.plugin) (λ a b zs. refl) (λ a zs. refl),
    agrees (λ v. v.plugin_instance) (λ a b zs. refl) (λ a zs. refl),
    agrees (λ v. v.host) (λ a b zs. refl) (λ a zs. refl),
    agrees (λ v. v.time) (λ a b zs. refl) (λ a zs. refl),
  )
