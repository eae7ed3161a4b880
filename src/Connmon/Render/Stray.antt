-- ===== src/Connmon/Render/Stray.antt =====
-- connmon/display.py: a text that begins with `#` and has no color code.
use sqlalchemy_collectd.Base.{
  ℕ, ◌≡◌, refl, ap, Bool, true, false, Option, none, some, [], ◌∷◌, length, if◌then◌else◌, nat_beq,
  nat_eq, list_eq, ◌==◌, ltb, All, ℤ, Result, ok, raise, assertion_error, key_error, arith,
}
use sqlalchemy_collectd.Base.Dict.{lookup}
use sqlalchemy_collectd.Protocol.Bytes.{Text}
use sqlalchemy_collectd.CollectdTypes.{text}
use sqlalchemy_collectd.Connmon.Markup.{code_end, code_at, push, split_from, split}
use sqlalchemy_collectd.Connmon.Render.{Colors, letters, get_color, render_tokens, render_str}

-- no `&` in a text
abbrev pub HasNoEnd : Text → Type 0
HasNoEnd = All (λ c. nat_beq c b'&' ≡ false)

code_end-HasNoEnd : (t : Text) → HasNoEnd t → code_end t ≡ none
unfolding code_end
code_end-HasNoEnd [] h = refl
code_end-HasNoEnd (c ∷ cs) (h, hs) = rw (h, code_end-HasNoEnd cs hs) (ground arith)

code_at-HasNoEnd : (t : Text) → HasNoEnd t → code_at t ≡ none
unfolding code_at
code_at-HasNoEnd [] h = refl
code_at-HasNoEnd (c ∷ []) h = refl
code_at-HasNoEnd (c ∷ d ∷ cs) (h, (h', hs)) = rw (code_end-HasNoEnd cs hs) (ground arith)

split_from-HasNoEnd : (t : Text) → HasNoEnd t → split_from 0 t ≡ t ∷ []
unfolding split_from
split_from-HasNoEnd [] h = refl
split_from-HasNoEnd (c ∷ cs) h =
    rw (split_from, code_at-HasNoEnd (c ∷ cs) h) (ap (push c) (split_from-HasNoEnd cs h.1))

split-HasNoEnd : (t : Text) → HasNoEnd t → split t ≡ t ∷ []
unfolding split
split-HasNoEnd t h = split_from-HasNoEnd t h

-- a name without an attribute, whose first letter has none either
abbrev pub IsUnknown : Colors → Text → Type 0
IsUnknown colors [] = lookup [] colors ≡ none
IsUnknown colors (l ∷ ls) = (lookup (l ∷ ls) colors ≡ none) × (lookup (l ∷ []) colors ≡ none)

get_color-IsUnknown :
    (colors : Colors) (t : Text)
    → IsUnknown colors t
    → get_color colors t ≡ (colors, raise (if ltb 1 (length t) then key_error else assertion_error))
unfolding get_color letters
get_color-IsUnknown colors [] h = rw (h, get_color) refl
get_color-IsUnknown colors (l ∷ []) h = rw (h.0, get_color) refl
get_color-IsUnknown colors (l ∷ m ∷ ms) h =
    rw (h.0, get_color) (rw (h.1, letters) (either (ltb 1 (length (l ∷ m ∷ ms)))))
  where
    either :
        (b : Bool)
        → ◌≡◌ {A = Colors × Result ℕ}
            (if b then (colors, raise key_error) else (colors, raise assertion_error))
            (colors, raise (if b then key_error else assertion_error))
    either true = refl
    either false = refl

get_color-found :
    (colors : Colors) (t : Text) (a : ℕ)
    → lookup t colors ≡ some a
    → get_color colors t ≡ (colors, ok a)
unfolding get_color
get_color-found colors t a h = rw (h, get_color) refl

-- `_render_str` writes nothing and raises, for a text that begins with `#` and has no `&`, where
-- what follows the `#` is not `d` and is neither a color nor begins with the letter of one, and
-- where the default color is found.
pub render_str-stray :
    (columns y : ℕ) (x : ℤ) (t default_color : Text) (max center : Option ℕ) (colors : Colors)
    (a : ℕ)
    → lookup default_color colors ≡ some a
    → HasNoEnd t
    → (t == text "d") ≡ false
    → IsUnknown colors t
    → render_str columns y x (b'#' ∷ t) default_color max center colors ≡ record {
      colors = colors;
      writes = [];
      result = raise (if ltb 1 (length t) then key_error else assertion_error);
    }
unfolding render_str render_tokens
render_str-stray columns y x t default_color max center colors a default no_end other unknown =
    rw (get_color-found colors default_color a default) (
      rw (split-HasNoEnd (b'#' ∷ t) (refl, no_end))
        (rw (other, get_color-IsUnknown colors t unknown) refl))
