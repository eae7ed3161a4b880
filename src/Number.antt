-- ===== src/Number.antt =====
-- Python numbers as the program's data values use them: an integer, or a float given by the bit
-- pattern of its double. What the interpreter computes on doubles is a parameter, `Floats`.
use sqlalchemy_collectd.Base.{
  ℕ, ◌^◌, ◌<◌, ◌≡◌, Option, none, some, ℤ, pos, ◌+ℤ◌, Result, ok, raise, overflow_error, ◌>>=◌,
}

pub data Num : Type 0 where
  int : ℤ → Num
  float : ℕ → Num

-- The operations of the interpreter on doubles. `of_int` is `float(n)`: it fails where the integer
-- is too large for a double, never below 2^53, and its result is a pattern of 64 bits.
pub record Floats : Type 0 where
  pub of_int : ℤ → Option ℕ
  pub add : ℕ → ℕ → ℕ
  pub of_int_small : (n : ℕ) → n < 2 ^ 53 → (b : ℕ) × (of_int (pos n) ≡ some b)
  pub of_int_lt : (z : ℤ) (b : ℕ) → of_int z ≡ some b → b < 2 ^ 64

abbrev pub IsNum : Num → Type 0
IsNum (int z) = Unit
IsNum (float b) = b < 2 ^ 64

module _ (fl : Floats) where
  -- `float(x)`
  unfoldable pub to_float : Num → Result ℕ
  to_float (float b) = ok b
  to_float (int z) = elim (fl.of_int z) [ none ↦ raise overflow_error | some b ↦ ok b ]

  -- `x + y`: the sum of two integers is exact, any other is a float
  unfoldable pub add_num : Num → Num → Result Num
  unfolding to_float
  add_num (int a) (int b) = ok (int (a +ℤ b))
  add_num (int a) (float b) = do x ← to_float (int a); ok (float (fl.add x b))
  add_num (float a) (int b) = do y ← to_float (int b); ok (float (fl.add a y))
  add_num (float a) (float b) = ok (float (fl.add a b))
