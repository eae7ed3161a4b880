-- ===== src/Tests/Samples.antt =====
-- A concrete `Floats`.
use sqlalchemy_collectd.Base.{
  ℕ, ◌+◌, ◌^◌, ◌<◌, ◌≡◌, Option, none, some, ltb, if◌then◌else◌, ℤ, pos, negsuc, arith,
}
use sqlalchemy_collectd.Number.{Floats}

-- Doubles stand for themselves here; this only shows that the laws of `Floats` can be met.
abbrev pub of_small : ℤ → Option ℕ
of_small (pos n) = if ltb n (2 ^ 53) then some n else none
of_small (negsuc n) = none

pub small : (n : ℕ) → n < 2 ^ 53 → (b : ℕ) × (of_small (pos n) ≡ some b)
small n h = (n, ground arith)

pub fits : (z : ℤ) (b : ℕ) → of_small z ≡ some b → b < 2 ^ 64
fits (pos n) b h = ground arith
fits (negsuc n) b h = cc

abbrev pub floats : Floats
floats = record { of_int = of_small; add = λ a b. a + b; of_int_small = small; of_int_lt = fits }
