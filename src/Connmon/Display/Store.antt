-- ===== src/Connmon/Display/Store.antt =====
-- connmon/display.py: the screens that are kept.
use sqlalchemy_collectd.Base.{
  ℕ, zero, suc, ◌<◌, ◌≡◌, refl, ap, List, [], ◌∷◌, ◌++◌, length, All, ok, ok-injective, arith,
}
use mathlib.Core.Path.{subst}
use sqlalchemy_collectd.Connmon.Display.{Screen, at, put_at}

pub at-put_at :
    (n : ℕ) (ss : List Screen) (s t : Screen) → at n ss ≡ ok s → at n (put_at n t ss) ≡ ok t
unfolding at put_at
at-put_at n [] s t h = cc
at-put_at zero (u ∷ ss) s t h = refl
at-put_at (suc n) (u ∷ ss) s t h = at-put_at n ss s t h

pub at-put_at_other :
    (n m : ℕ) (ss : List Screen) (t : Screen) → (n ≡ m → ⊥) → at n (put_at m t ss) ≡ at n ss
unfolding at put_at
at-put_at_other n m [] t h = refl
at-put_at_other zero zero (u ∷ ss) t h = absurd (h refl)
at-put_at_other zero (suc m) (u ∷ ss) t h = refl
at-put_at_other (suc n) zero (u ∷ ss) t h = refl
at-put_at_other (suc n) (suc m) (u ∷ ss) t h = at-put_at_other n m ss t (λ e. h (ap suc e))

pub put_at-twice :
    (n : ℕ) (ss : List Screen) (s t : Screen) → put_at n t (put_at n s ss) ≡ put_at n t ss
unfolding put_at
put_at-twice n [] s t = refl
put_at-twice zero (u ∷ ss) s t = refl
put_at-twice (suc n) (u ∷ ss) s t = ap (◌∷◌ u) (put_at-twice n ss s t)

pub length-put_at : (n : ℕ) (s : Screen) (ss : List Screen) → length (put_at n s ss) ≡ length ss
unfolding put_at
length-put_at n s [] = refl
length-put_at zero s (u ∷ ss) = refl
length-put_at (suc n) s (u ∷ ss) = ap suc (length-put_at n s ss)

pub at-lt : (n : ℕ) (ss : List Screen) {s : Screen} → at n ss ≡ ok s → n < length ss
unfolding at
at-lt n [] h = cc
at-lt zero (u ∷ ss) h = omega arith
at-lt (suc n) (u ∷ ss) h = omega (arith, at-lt n ss h)

pub at_cases : (n : ℕ) (ss : List Screen) → n < length ss → (s : Screen) × (at n ss ≡ ok s)
unfolding at
at_cases n [] h = absurd (omega arith)
at_cases zero (u ∷ ss) h = (u, refl)
at_cases (suc n) (u ∷ ss) h = at_cases n ss (omega arith)

pub at-append : (n : ℕ) (ss ts : List Screen) (s : Screen) → at n ss ≡ ok s → at n (ss ++ ts) ≡ ok s
unfolding at
at-append n [] ts s h = cc
at-append zero (u ∷ ss) ts s h = h
at-append (suc n) (u ∷ ss) ts s h = at-append n ss ts s h

pub at-last : (ss : List Screen) (s : Screen) → at (length ss) (ss ++ s ∷ []) ≡ ok s
unfolding at
at-last [] s = refl
at-last (u ∷ ss) s = at-last ss s

pub put_at-last :
    (ss : List Screen) (s t : Screen) → put_at (length ss) t (ss ++ s ∷ []) ≡ ss ++ t ∷ []
unfolding put_at
put_at-last [] s t = refl
put_at-last (u ∷ ss) s t = ap (◌∷◌ u) (put_at-last ss s t)

module _ (P : Screen → Type 0) where
  pub All-put_at : (n : ℕ) (s : Screen) (ss : List Screen) → P s → All P ss → All P (put_at n s ss)
  unfolding put_at
  All-put_at n s [] h k = tt
  All-put_at zero s (u ∷ ss) h k = (h, k.1)
  All-put_at (suc n) s (u ∷ ss) h k = (k.0, All-put_at n s ss h k.1)

  pub at-All : (n : ℕ) (ss : List Screen) {s : Screen} → at n ss ≡ ok s → All P ss → P s
  unfolding at
  at-All n [] h k = cc
  at-All zero (u ∷ ss) h k = subst P (ok-injective h) k.0
  at-All (suc n) (u ∷ ss) h k = at-All n ss h k.1
