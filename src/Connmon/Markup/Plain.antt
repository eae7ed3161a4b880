-- ===== src/Connmon/Markup/Plain.antt =====
-- connmon/display.py: the texts between the codes.
use sqlalchemy_collectd.Base.{
  ℕ, zero, suc, ◌≡◌, refl, Option, none, some, List, [], ◌∷◌, ◌++◌, length,
}
use sqlalchemy_collectd.Protocol.Bytes.{Text}
use sqlalchemy_collectd.Connmon.Markup.{code_at, push, split_from, split, sub_from, sub}

-- The texts at the even places of what `split` returns, in one.
abbrev pub plain_text : List Text → Text
plain_text [] = []
plain_text (t ∷ []) = t
plain_text (t ∷ code ∷ ts) = t ++ plain_text ts

plain_text-push :
    (c : ℕ) (t : Text) (ts : List Text) → plain_text (push c (t ∷ ts)) ≡ c ∷ plain_text (t ∷ ts)
plain_text-push c t [] = refl
plain_text-push c t (code ∷ ts) = refl

HasFirst : List Text → Type 0
HasFirst ts = (t : Text) × (us : List Text) × (ts ≡ t ∷ us)

split_from-HasFirst : (n : ℕ) (t : Text) → HasFirst (split_from n t)
unfolding split_from HasFirst
split_from-HasFirst n [] = ([], [], refl)
split_from-HasFirst (suc n) (c ∷ cs) = split_from-HasFirst n cs
split_from-HasFirst zero (c ∷ cs) =
    let (t, us, e) = split_from-HasFirst zero cs in at_code (code_at (c ∷ cs)) t us e
  where
    at_code :
        (o : Option Text) (t : Text) (us : List Text)
        → split_from zero cs ≡ t ∷ us
        → HasFirst (elim o as (λ _. List Text) [
          | none ↦ push c (split_from zero cs)
          | some code ↦ [] ∷ code ∷ split_from (length code) cs
        ])
    at_code none t us e = (c ∷ t, us, rw e refl)
    at_code (some code) t us e = (_, _, refl)

split_from-plain : (n : ℕ) (t : Text) → plain_text (split_from n t) ≡ sub_from n t
unfolding split_from sub_from HasFirst
split_from-plain n [] = refl
split_from-plain (suc n) (c ∷ cs) = split_from-plain n cs
split_from-plain zero (c ∷ cs) =
    let (t, us, e) = split_from-HasFirst zero cs in
    at_code (code_at (c ∷ cs)) t us e (split_from-plain zero cs) (λ n. split_from-plain n cs)
  where
    at_code :
        (o : Option Text) (t : Text) (us : List Text)
        → split_from zero cs ≡ t ∷ us
        → plain_text (split_from zero cs) ≡ sub_from zero cs
        → ((n : ℕ) → plain_text (split_from n cs) ≡ sub_from n cs)
        → plain_text (elim o as (λ _. List Text) [
          | none ↦ push c (split_from zero cs)
          | some code ↦ [] ∷ code ∷ split_from (length code) cs
        ])
          ≡ elim o as (λ _. Text) [
            | none ↦ c ∷ sub_from zero cs
            | some code ↦ sub_from (length code) cs
          ]
    at_code none t us e h k = rw (← h) (rw e (plain_text-push c t us))
    at_code (some code) t us e h k = k (length code)

-- The texts between the codes make the text without codes.
pub split-plain : (t : Text) → plain_text (split t) ≡ sub t
unfolding split sub
split-plain t = split_from-plain 0 t
