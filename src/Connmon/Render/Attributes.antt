-- ===== src/Connmon/Render/Attributes.antt =====
-- connmon/display.py: the attributes of names of known letters.
use sqlalchemy_collectd.Base.{
  ℕ, suc, ◌≡◌, refl, ap, ◌∙◌, ◌⊎◌, inl, inr, true, false, Bool-cases, none, some, Option-cases,
  List, [], ◌∷◌, length, nat_eq, list_eq, ◌==◌, ltb, All, ok, arith,
}
use sqlalchemy_collectd.Base.Dict.{lookup, insert, lookup-insert}
use sqlalchemy_collectd.Protocol.Bytes.{Text}
use sqlalchemy_collectd.CollectdTypes.{text}
use sqlalchemy_collectd.Connmon.Render.{
  Colors, letters, combine, mapped, get_color, is_code, code_of,
}

-- a letter that has an attribute
abbrev pub IsKnown : Colors → ℕ → Type 0
IsKnown colors l = (a : ℕ) × (lookup (l ∷ []) colors ≡ some a)

-- `d`, or letters that are known
abbrev pub IsColor : Colors → Text → Type 0
IsColor colors [] = ⊥
IsColor colors (l ∷ ls) = ((l ∷ ls == text "d") ≡ true) ⊎ All (IsKnown colors) (l ∷ ls)

-- Texts that do not begin with `#`, and codes of known colors between them.
abbrev pub IsMarkup : Colors → List Text → Type 0
IsMarkup colors [] = Unit {0}
IsMarkup colors (t ∷ []) = is_code t ≡ false
IsMarkup colors (t ∷ code ∷ ts) =
    (is_code t ≡ false) × (is_code code ≡ true) × IsColor colors (code_of code) × IsMarkup colors ts

letters-known :
    (colors : Colors) (ls : Text)
    → All (IsKnown colors) ls
    → (attributes : List ℕ) × (letters colors ls ≡ ok attributes) × (length attributes ≡ length ls)
unfolding letters
letters-known colors [] h = ([], refl, refl)
letters-known colors (l ∷ ls) ((a, e), h) =
    let (others, done, n) = letters-known colors ls h in
    (a ∷ others, rw (e, letters) (rw done refl), ap suc n)

get_color-mapped :
    (colors : Colors) (l m : ℕ) (ms : Text)
    → lookup (l ∷ m ∷ ms) colors ≡ none
    → get_color colors (l ∷ m ∷ ms) ≡ mapped colors (l ∷ m ∷ ms) (letters colors (l ∷ m ∷ ms))
unfolding get_color
get_color-mapped colors l m ms e = rw (e, get_color) (rw (long (length ms)) refl)
  where
    long : (n : ℕ) → ltb 1 (suc (suc n)) ≡ true
    long n = ground arith

insert-IsKnown :
    (colors : Colors) (color : Text) (a k : ℕ)
    → IsKnown colors k
    → IsKnown (insert color a colors) k
insert-IsKnown colors color a k (b, e) = elim (Bool-cases (color == k ∷ [])) [
  | inl same ↦ (a, lookup-insert color (k ∷ []) a colors ∙ rw same refl)
  | inr other ↦ (b, lookup-insert color (k ∷ []) a colors ∙ rw other e)
]

-- A color that is found, or made of known letters; every letter that was known stays so.
abbrev pub HasColor : Colors → Text → Type 0
HasColor colors color =
    (colors' : Colors) × (a : ℕ) × (get_color colors color ≡ (colors', ok a))
    × ((k : ℕ) → IsKnown colors k → IsKnown colors' k)

pub get_color-known :
    (colors : Colors) (l : ℕ) (ls : Text) → All (IsKnown colors) (l ∷ ls) → HasColor colors (l ∷ ls)
unfolding get_color
get_color-known colors l ls h = elim (Option-cases (lookup (l ∷ ls) colors)) [
  | inr (a, e) ↦ (colors, a, rw (e, get_color) refl, λ k known. known)
  | inl e ↦ made ls h e
]
  where
    made :
        (ls : Text)
        → All (IsKnown colors) (l ∷ ls)
        → lookup (l ∷ ls) colors ≡ none
        → HasColor colors (l ∷ ls)
    made [] h e = let (a, q) = h.0 in cc
    made (m ∷ ms) h e = of_letters (letters-known colors (l ∷ m ∷ ms) h)
      where
        of_letters :
            (attributes : List ℕ) × (letters colors (l ∷ m ∷ ms) ≡ ok attributes)
              × (length attributes ≡ length (l ∷ m ∷ ms))
            → HasColor colors (l ∷ m ∷ ms)
        of_letters ([], done, n) = absurd (omega arith)
        of_letters (a ∷ attributes, done, n) = (
          insert (l ∷ m ∷ ms) (combine a attributes) colors,
          combine a attributes,
          get_color-mapped colors l m ms e ∙ ap (mapped colors (l ∷ m ∷ ms)) done,
          insert-IsKnown colors (l ∷ m ∷ ms) (combine a attributes),
        )
