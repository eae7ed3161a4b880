-- ===== src/Base/Sets.antt =====
-- Python's sets of numbers, as lists with no number twice. Their order is not observed.
use Prim.Native.Nat.{ℕ, suc, ◌+◌}
use mathlib.Core.Path.{◌≡◌, refl, ap}
use mathlib.Core.Bool.{Bool, true, false, not, ◌&&◌, ◌||◌}
use mathlib.Core.List.{List, [], ◌∷◌}
use native.Mathlib.Omega.{arith}
use sqlalchemy_collectd.Base.Tests.{if◌then◌else◌, nat_beq}
use sqlalchemy_collectd.Base.Lists.{length}

abbrev pub mem : ℕ → List ℕ → Bool
mem k [] = false
mem k (j ∷ s) = nat_beq j k || mem k s

abbrev pub add : ℕ → List ℕ → List ℕ
add k s = if mem k s then s else k ∷ s

abbrev pub discard : ℕ → List ℕ → List ℕ
discard k [] = []
discard k (j ∷ s) = if nat_beq j k then discard k s else j ∷ discard k s

-- `a.difference(b)`
abbrev pub difference : List ℕ → List ℕ → List ℕ
difference [] b = []
difference (j ∷ a) b = if mem j b then difference a b else j ∷ difference a b

abbrev pub IsDistinct : List ℕ → Type 0
IsDistinct [] = Unit {0}
IsDistinct (j ∷ s) = (mem j s ≡ false) × IsDistinct s

pub mem-add : (k j : ℕ) (s : List ℕ) → mem j (add k s) ≡ (nat_beq k j || mem j s)
mem-add k j s = ground (arith, same k j s)
  where
    same : (k j : ℕ) (s : List ℕ) → mem k s ≡ true → nat_beq k j ≡ true → mem j s ≡ true
    same k j [] h e = cc
    same k j (i ∷ s) h e = ground (arith, same k j s)

pub mem-discard : (k j : ℕ) (s : List ℕ) → mem j (discard k s) ≡ (not (nat_beq k j) && mem j s)
mem-discard k j [] = ground arith
mem-discard k j (i ∷ s) = ground (arith, mem-discard k j s)

pub mem-difference : (j : ℕ) (a b : List ℕ) → mem j (difference a b) ≡ (mem j a && not (mem j b))
mem-difference j [] b = refl
mem-difference j (i ∷ a) b = ground (arith, mem-difference j a b, same i j b)
  where
    same : (i j : ℕ) (s : List ℕ) → nat_beq i j ≡ true → mem i s ≡ mem j s
    same i j [] e = refl
    same i j (k ∷ s) e = ground (arith, same i j s e)

pub add-IsDistinct : (k : ℕ) (s : List ℕ) → IsDistinct s → IsDistinct (add k s)
add-IsDistinct k s h = ground arith

pub discard-IsDistinct : (k : ℕ) (s : List ℕ) → IsDistinct s → IsDistinct (discard k s)
discard-IsDistinct k [] h = tt
discard-IsDistinct k (j ∷ s) h = ground (arith, discard-IsDistinct k s h.1, mem-discard k j s)

pub difference-IsDistinct : (a b : List ℕ) → IsDistinct a → IsDistinct (difference a b)
difference-IsDistinct [] b h = tt
difference-IsDistinct (j ∷ a) b h =
    ground (arith, difference-IsDistinct a b h.1, mem-difference j a b)

pub length-add :
    (k : ℕ) (s : List ℕ) → length (add k s) ≡ (if mem k s then length s else suc (length s))
length-add k s = ground arith

pub discard-absent : (k : ℕ) (s : List ℕ) → mem k s ≡ false → discard k s ≡ s
discard-absent k [] h = refl
discard-absent k (j ∷ s) h = ground (arith, discard-absent k s)

pub length-discard :
    (k : ℕ) (s : List ℕ)
    → IsDistinct s
    → length (discard k s) + (if mem k s then 1 else 0) ≡ length s
length-discard k [] h = omega arith
length-discard k (j ∷ s) h = ground (arith, length-discard k s h.1, discard-absent k s, swap j k s)
  where
    swap : (j k : ℕ) (s : List ℕ) → nat_beq j k ≡ true → mem j s ≡ false → mem k s ≡ false
    swap j k [] e h = refl
    swap j k (i ∷ s) e h = ground (arith, swap j k s)

difference-nil : (a : List ℕ) → difference a [] ≡ a
difference-nil [] = refl
difference-nil (j ∷ a) = ap (◌∷◌ j) (difference-nil a)

difference-cons : (k : ℕ) (a b : List ℕ) → difference a (k ∷ b) ≡ difference (discard k a) b
difference-cons k [] b = refl
difference-cons k (j ∷ a) b = ground (arith, difference-cons k a b)

-- A subset taken away leaves as many as its size says.
pub length-difference :
    (a b : List ℕ)
    → IsDistinct a
    → IsDistinct b
    → ((j : ℕ) → mem j b ≡ true → mem j a ≡ true)
    → length (difference a b) + length b ≡ length a
length-difference a [] ha hb sub = rw difference-nil (omega arith)
length-difference a (k ∷ b) ha hb sub = rw difference-cons (
    omega (
      arith,
      length-difference (discard k a) b (discard-IsDistinct k a ha) hb.1 inside,
      present k a ha (sub k (ground arith)),
    ))
  where
    present :
        (k : ℕ) (a : List ℕ) → IsDistinct a → mem k a ≡ true → length (discard k a) + 1 ≡ length a
    present k a h m = ground (arith, length-discard k a h)

    inside : (j : ℕ) → mem j b ≡ true → mem j (discard k a) ≡ true
    inside j h = ground (arith, mem-discard k j a, sub j (ground arith), same k j b, hb.0)
      where
        same : (k j : ℕ) (s : List ℕ) → nat_beq k j ≡ true → mem k s ≡ mem j s
        same k j [] e = refl
        same k j (i ∷ s) e = ground (arith, same k j s e)
