-- ===== src/Connmon/Render.antt =====
-- connmon/display.py: how a text with color codes is written to the window.
pub mod Attributes
pub mod Pieces
pub mod Visible
pub mod Stray
use Prim.Native.Nat.{bit_or}
use sqlalchemy_collectd.Base.{
  ℕ, suc, ◌-◌, ◌/◌, Bool, true, false, ◌&&◌, Option, none, some, List, [], ◌∷◌, ◌++◌, length, take,
  if◌then◌else◌, nat_beq, nat_eq, list_eq, ltb, leb, ℤ, pos, negsuc, ◌+ℤ◌, ◌-ℤ◌, ltb_ℤ, Result, ok,
  raise, stuck, assertion_error, key_error, ◌>>=◌, ◌==◌,
}
use sqlalchemy_collectd.Base.Dict.{Dict, lookup, insert}
use sqlalchemy_collectd.Protocol.Bytes.{Text}
use sqlalchemy_collectd.CollectdTypes.{text}
use sqlalchemy_collectd.Connmon.Markup.{split, text_width}

-- `_color_pairs`: the attributes of the one-letter names, which curses gives, and of the
-- combinations that were asked for.
abbrev pub Colors : Type 0
Colors = Dict Text ℕ

-- the attributes of a name, letter by letter
unfoldable pub letters : Colors → Text → Result (List ℕ)
letters colors [] = ok []
letters colors (c ∷ cs) = elim (lookup (c ∷ []) colors) [
  | none ↦ raise key_error
  | some a ↦ do rest ← letters colors cs; ok (a ∷ rest)
]

-- `functools.reduce(operator.or_, ...)`, of one attribute at least
abbrev pub combine : ℕ → List ℕ → ℕ
combine a [] = a
combine a (b ∷ bs) = combine (bit_or a b) bs

abbrev pub mapped : Colors → Text → Result (List ℕ) → Colors × Result ℕ
mapped colors color (ok []) = (colors, raise assertion_error)
mapped colors color (ok (a ∷ attributes)) =
    (insert color (combine a attributes) colors, ok (combine a attributes))
mapped colors color (raise e) = (colors, raise e)
mapped colors color stuck = (colors, stuck)

unfoldable pub get_color : Colors → Text → Colors × Result ℕ
unfolding letters
get_color colors color = elim (lookup color colors) [
  | some a ↦ (colors, ok a)
  | none ↦
      if ltb 1 (length color)
      then mapped colors color (letters colors color)
      else (colors, raise assertion_error)
]

-- One call of `window.addstr`. The window may refuse it (`curses.error`), and that is ignored.
pub record Write : Type 0 where
  pub y : ℕ
  pub x : ℤ
  pub str : Text
  pub color : ℕ

-- `token[:n]`: a negative `n` counts from the end
abbrev pub slice_to : ℤ → Text → Text
slice_to (pos n) t = take n t
slice_to (negsuc n) t = take (length t - suc n) t

abbrev pub is_code : Text → Bool
is_code [] = false
is_code (c ∷ cs) = nat_beq c b'#'

abbrev pub code_of : Text → Text
code_of [] = []
code_of (c ∷ cs) = cs

-- what the loop has done when it ends or raises
pub record Rendered : Type 0 where
  pub colors : Colors
  pub writes : List Write
  pub result : Result (Unit {0})

abbrev pub written : Write → Rendered → Rendered
written w r = record r { writes = w ∷ r.writes }

abbrev pub with_color : Colors × Result ℕ → (Colors → ℕ → Rendered) → Rendered
with_color (colors, ok a) f = f colors a
with_color (colors, raise e) f = record { colors = colors; writes = []; result = raise e }
with_color (colors, stuck) f = record { colors = colors; writes = []; result = stuck }

-- the loop over the tokens
unfoldable pub render_tokens : ℕ → ℤ → ℕ → List Text → ℤ → ℕ → Colors → Rendered
unfolding get_color
render_tokens y max_x default [] x current colors = record {
  colors = colors;
  writes = [];
  result = ok tt;
}
render_tokens y max_x default (token ∷ tokens) x current colors =
    let as_default = render_tokens y max_x default tokens x default colors in
    let as_code =
      with_color (get_color colors (code_of token))
        (λ colors' a. render_tokens y max_x default tokens x a colors') in
    let x' = x +ℤ pos (length token) in
    let rest = render_tokens y max_x default tokens x' current colors in
    let last : Rendered = record { colors = colors; writes = []; result = ok tt } in
    if is_code token
    then (if code_of token == text "d" then as_default else as_code)
    else written (record { y = y; x = x; str = slice_to (max_x -ℤ x) token; color = current })
        (if ltb_ℤ max_x x' then last else rest)

-- where the first token goes; a position below 0 is the right edge
unfoldable pub start_x : ℕ → ℤ → Option ℕ → ℕ → ℤ
start_x columns (negsuc n) center width = pos columns -ℤ pos width
start_x columns (pos x) none width = pos x
start_x columns (pos x) (some center) width =
    if ltb width center then pos x +ℤ pos ((center - width) / 2) else pos x

abbrev pub end_x : ℕ → Option ℕ → ℤ → ℤ
end_x columns none x = pos columns
end_x columns (some max) x = if nat_beq max 0 then pos columns else x +ℤ pos max

-- `_render_str`, in a window of so many columns
unfoldable pub render_str : ℕ → ℕ → ℤ → Text → Text → Option ℕ → Option ℕ → Colors → Rendered
unfolding render_tokens start_x split
render_str columns y x t default_color max center colors =
    let x' = start_x columns x center (text_width t) in
    with_color (get_color colors default_color)
      (λ colors' a. render_tokens y (end_x columns max x') a (split t) x' a colors')
