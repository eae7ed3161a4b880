-- ===== src/Stream/Translator/Pieces.antt =====
-- The pieces of an object: one for each field, in order, with nothing lost.
use sqlalchemy_collectd.Base.{
  ◌≡◌, refl, ap, ◌∙◌, ◌⊎◌, inl, inr, some, List, [], ◌∷◌, map, length, All, Bool-cases, ◌==◌,
  nat_eq, list_eq, beq_refl, ok, >>=-eq-ok, ok-injective, arith,
}
use mathlib.Core.List.{zip}
use mathlib.Core.Path.{subst, ap₂}
use sqlalchemy_collectd.Base.Dict.{Dict, lookup, insert, lookup-insert}
use sqlalchemy_collectd.Base.Generator.{Generator}
use sqlalchemy_collectd.Number.{Num}
use sqlalchemy_collectd.Protocol.Bytes.{Text}
use sqlalchemy_collectd.Protocol.Types
use sqlalchemy_collectd.Protocol.Types.{
  init-name, ValueType, counter, gauge, derive, absolute, CollectdType, type_values,
}
use sqlalchemy_collectd.Protocol.Values.{Values, build, items}
use sqlalchemy_collectd.CollectdTypes.{text}
use sqlalchemy_collectd.Stream.Translator.{
  StreamTranslator, string_name, add_fields, add_types, new, internal_type, piece, pieces,
  break_into_individual_values,
}

-- An external type of this name is known.
abbrev pub Knows : Text → Dict Text CollectdType → Type 0
Knows name d = (t : CollectdType) × (lookup name d ≡ some t) × (t.name ≡ name)

abbrev pub Among : CollectdType → List CollectdType → Type 0
Among t [] = ⊥
Among t (x ∷ xs) = (x ≡ t) ⊎ Among t xs

Knows-insert_self :
    (name : Text) (x : CollectdType) (d : Dict Text CollectdType)
    → x.name ≡ name
    → Knows name (insert name x d)
Knows-insert_self name x d e = (x, lookup-insert name name x d ∙ rw (beq_refl name) refl, e)

Knows-insert :
    (name : Text) (x : CollectdType) (d : Dict Text CollectdType) (j : Text)
    → x.name ≡ name
    → Knows j d
    → Knows j (insert name x d)
Knows-insert name x d j e (t, there, same) = elim (Bool-cases (name == j)) [
  | inl hit ↦ (x, lookup-insert name j x d ∙ rw hit refl, e ∙ (list_eq.beq_iff name j).0 hit)
  | inr miss ↦ (t, lookup-insert name j x d ∙ rw miss there, same)
]

-- The constructor's loops only ever add names.
add_fields-keeps :
    (fields : List (Text × ValueType)) (s : StreamTranslator) {s' : StreamTranslator} (j : Text)
    → add_fields fields s ≡ ok s'
    → Knows j s.external_types
    → Knows j s'.external_types
unfolding add_fields
add_fields-keeps [] s j h k = rw (← ok-injective h) k
add_fields-keeps (f ∷ fields) s j h k =
    let (x, made, more) = >>=-eq-ok (Types.init f.0 ((text "value", f.1) ∷ [])) _ h in
    add_fields-keeps fields
      (record {
        type_by_name = insert f.0 x s.type_by_name;
        external_types = insert f.0 x s.external_types;
      })
      j more (Knows-insert f.0 x s.external_types j (init-name f.0 _ made) k)

add_fields-Knows :
    (names : List Text) (types : List ValueType) (s : StreamTranslator) {s' : StreamTranslator}
    → length names ≡ length types
    → add_fields (zip names types) s ≡ ok s'
    → All (λ n. Knows n s'.external_types) names
unfolding add_fields zip
add_fields-Knows [] types s n h = tt
add_fields-Knows (name ∷ names) [] s n h = absurd (omega arith)
add_fields-Knows (name ∷ names) (t ∷ types) s n h =
    let (x, made, more) = >>=-eq-ok (Types.init name ((text "value", t) ∷ [])) _ h in
    let s1 : StreamTranslator = record {
      type_by_name = insert name x s.type_by_name;
      external_types = insert name x s.external_types;
    } in
    (
      add_fields-keeps (zip names types) s1 name more
          (Knows-insert_self name x s.external_types (init-name name _ made)),
      add_fields-Knows names types s1 (omega arith) more,
    )

add_types-keeps :
    (ts : List CollectdType) (s : StreamTranslator) {s' : StreamTranslator} (j : Text)
    → add_types ts s ≡ ok s'
    → Knows j s.external_types
    → Knows j s'.external_types
unfolding add_types
add_types-keeps [] s j h k = rw (← ok-injective h) k
add_types-keeps (t ∷ ts) s j h k =
    let (s1, added, more) = >>=-eq-ok (add_fields (zip t.field_names t.value_types) s) _ h in
    add_types-keeps ts s1 j more (add_fields-keeps (zip t.field_names t.value_types) s j added k)

-- A type with a name for each of its values, as the constructor of `Type` makes it.
abbrev pub IsPaired : CollectdType → Type 0
IsPaired t = length t.field_names ≡ length t.value_types

All-Knows-keeps :
    (names : List Text) (ts : List CollectdType) (s : StreamTranslator) {s' : StreamTranslator}
    → add_types ts s ≡ ok s'
    → All (λ n. Knows n s.external_types) names
    → All (λ n. Knows n s'.external_types) names
All-Knows-keeps [] ts s h k = tt
All-Knows-keeps (n ∷ names) ts s h k =
    (add_types-keeps ts s n h k.0, All-Knows-keeps names ts s h k.1)

add_types-Knows :
    (ts : List CollectdType) (s : StreamTranslator) {s' : StreamTranslator} (t : CollectdType)
    → All IsPaired ts
    → Among t ts
    → add_types ts s ≡ ok s'
    → All (λ n. Knows n s'.external_types) t.field_names
unfolding add_types
add_types-Knows [] s t p m h = absurd m
add_types-Knows (x ∷ ts) s {s'} t p (inl e) h =
    let (s1, added, more) = >>=-eq-ok (add_fields (zip x.field_names x.value_types) s) _ h in
    subst (λ q. All (λ n. Knows n s'.external_types) q.field_names) e
      (All-Knows-keeps x.field_names ts s1 more
        (add_fields-Knows x.field_names x.value_types s p.0 added))
add_types-Knows (x ∷ ts) s t p (inr m) h =
    let (s1, added, more) = >>=-eq-ok (add_fields (zip x.field_names x.value_types) s) _ h in
    add_types-Knows ts s1 t p.1 m more

-- collectd has a plain type for gauges and for derived values only
abbrev pub IsPlain : ValueType → Type 0
IsPlain counter = ⊥
IsPlain gauge = Unit {0}
IsPlain derive = Unit {0}
IsPlain absolute = ⊥

abbrev pub plain_name : ValueType → Text
plain_name gauge = text "count"
plain_name derive = text "derive"
plain_name counter = []
plain_name absolute = []

string_name-IsPlain : (t : ValueType) → IsPlain t → string_name t ≡ ok (plain_name t)
string_name-IsPlain counter h = absurd h
string_name-IsPlain gauge h = refl
string_name-IsPlain derive h = refl
string_name-IsPlain absolute h = absurd h

-- What the pieces share with the object that they come from.
pub record IsPieceOf (v w : Values) : Type 0 where
  pub plugin : w.plugin ≡ v.plugin
  pub plugin_instance : w.plugin_instance ≡ v.plugin_instance
  pub host : w.host ≡ v.host
  pub time : w.time ≡ v.time
  pub interval : w.interval ≡ v.interval

-- The pieces of an object: what each of them is of, in the order of the fields.
pub record ArePieces (v : Values) (names : List Text) (ts : List ValueType) (xs : List Num)
    (g : Generator Values) : Type 0 where
  pub returns : g.1 ≡ ok tt
  pub instances : map (λ w. w.type_instance) g.0 ≡ map some names
  pub types : map (λ w. w.type) g.0 ≡ map (λ t. some (plain_name t)) ts
  pub values : map (λ w. w.values) g.0 ≡ map (λ x. some (x ∷ [])) xs
  pub others : All (IsPieceOf v) g.0

piece-IsPlain :
    (s : StreamTranslator) (v : Values) (name : Text) (t : ValueType) (x : Num)
    → Knows name s.external_types
    → IsPlain t
    → (w : Values) × (piece s v name t x ≡ ok w)
      × (w.type_instance ≡ some name)
      × (w.type ≡ some (plain_name t))
      × (w.values ≡ some (x ∷ []))
      × IsPieceOf v w
unfolding piece build
piece-IsPlain s v name t x (ext, there, same) plain = (
  build v λ d. record d {
    type_instance = some ext.name;
    type = some (plain_name t);
    values = some (x ∷ []);
  },
  rw there (rw (string_name-IsPlain t plain) refl),
  ap some same,
  refl,
  refl,
  record { plugin = refl; plugin_instance = refl; host = refl; time = refl; interval = refl },
)

pieces-ArePieces :
    (s : StreamTranslator) (v : Values) (names : List Text) (types : List ValueType) (xs : List Num)
    → All (λ n. Knows n s.external_types) names
    → All IsPlain types
    → length names ≡ length types
    → length xs ≡ length types
    → ArePieces v names types xs (pieces s v names types xs)
unfolding pieces
pieces-ArePieces s v [] [] [] k p n m = record {
  returns = refl;
  instances = refl;
  types = refl;
  values = refl;
  others = tt;
}
pieces-ArePieces s v (name ∷ names) (t ∷ types) (x ∷ xs) k p n m =
    let (w, made, i, ty, vs, o) = piece-IsPlain s v name t x k.0 p.0 in
    let rest = pieces-ArePieces s v names types xs k.1 p.1 (omega arith) (omega arith) in
    rw made (record {
      returns = rest.returns;
      instances = ap₂ ◌∷◌ i rest.instances;
      types = ap₂ ◌∷◌ ty rest.types;
      values = ap₂ ◌∷◌ vs rest.values;
      others = (o, rest.others);
    })
pieces-ArePieces s v names types xs k p n m = absurd (omega arith)

-- A translator that the constructor built from types with a name for each value breaks an object of
-- one of these types, if all fields of the type are gauges or derived values and the object has exactly
-- as many values as the type has fields, into one object for each field, in order, and returns: the
-- objects have the field's name as their type instance, `count`
-- or `derive` as their type, the field's value alone as their value, and all else from the object.
pub break-ArePieces :
    (ts : List CollectdType) (s : StreamTranslator) (t : CollectdType) (v : Values) (xs : List Num)
    → All IsPaired ts
    → new ts ≡ ok s
    → Among t ts
    → internal_type s v.type ≡ ok t
    → All IsPlain t.value_types
    → v.values ≡ some xs
    → length t.field_names ≡ length t.value_types
    → length xs ≡ length t.value_types
    → ArePieces v t.field_names t.value_types xs (break_into_individual_values s v)
unfolding break_into_individual_values new items
break-ArePieces ts s t v xs paired made among known plain held n m = rw known (
    simp held (
      pieces-ArePieces s v t.field_names t.value_types xs (add_types-Knows ts _ t paired among made)
        plain n m))
