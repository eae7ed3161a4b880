-- ===== src/Base/Errors.antt =====
-- Python's exceptions as values.
use mathlib.Core.Path.{◌≡◌, refl}
use mathlib.Core.Bool.{Bool, true, false}

-- The exception classes that the program raises or catches.
pub data Error : Type 0 where
  struct_error key_error type_error value_error unicode_error overflow_error zero_division : Error
  assertion_error index_error attribute_error io_error runtime_error : Error

-- `stuck` is no Python value: it says that a loop has used up its fuel.
pub data Result {ℓ} (A : Type ℓ) : Type ℓ where
  ok : A → Result A
  raise : Error → Result A
  stuck : Result A

-- An exception ends a chain of calls.
module _ {ℓ κ} {A : Type ℓ} {B : Type κ} where
  infixl 5 ◌>>=◌
  abbrev pub ◌>>=◌ : Result A → (A → Result B) → Result B
  raise x >>= next = raise x
  stuck >>= next = stuck
  ok a >>= next = next a

  -- What a chain returns comes from what its first call returns.
  pub >>=-eq-ok :
      (r : Result A) (next : A → Result B) {b : B}
      → (r >>= next) ≡ ok b
      → (a : A) × (r ≡ ok a) × (next a ≡ ok b)
  >>=-eq-ok (raise x) next h = cc
  >>=-eq-ok stuck next h = cc
  >>=-eq-ok (ok a) next h = (a, refl, h)

-- `if not b: raise e`
abbrev pub guard : Bool → Error → Result (Unit {0})
guard b e = elim b [ true ↦ ok tt | false ↦ raise e ]

pub guard-eq-ok : (b : Bool) (e : Error) {u : Unit {0}} → guard b e ≡ ok u → b ≡ true
guard-eq-ok true e h = refl
guard-eq-ok false e h = cc

infixl 5 ◌>>◌
abbrev pub ◌>>◌ {ℓ} : {B : Type ℓ} → Result (Unit {0}) → Result B → Result B
r >> others = r >>= (λ u. others)

pub ok-injective {ℓ} : {A : Type ℓ} {a b : A} → ok a ≡ ok b → a ≡ b
ok-injective h = cc
