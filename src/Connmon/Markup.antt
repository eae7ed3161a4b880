-- ===== src/Connmon/Markup.antt =====
-- connmon/display.py: texts with color codes such as `#Gb&`, and their width.
pub mod Plain
use sqlalchemy_collectd.Base.{
  ℕ, zero, suc, ◌+◌, ◌-◌, ◌/◌, Bool, true, false, Option, none, some, List, [], ◌∷◌, ◌++◌, map,
  length, if◌then◌else◌, nat_beq, ltb,
}
use sqlalchemy_collectd.Protocol.Bytes.{Text}

-- The rest of a match of `(#.+?)&` behind the first character of the code: up to the first `&`, and
-- not past the end of the line. What is returned is the code without the `&`.
unfoldable pub code_end : Text → Option Text
code_end [] = none
code_end (c ∷ cs) =
    let rest = code_end cs in
    if nat_beq c b'&'
    then some []
    else if nat_beq c b'\n'
    then none
    else elim rest [ none ↦ none | some code ↦ some (c ∷ code) ]

-- A match at a position: the code with its `#`. A code has one character at least, of any kind but
-- the end of a line.
unfoldable pub code_at : Text → Option Text
unfolding code_end
code_at [] = none
code_at (c ∷ []) = none
code_at (c ∷ d ∷ cs) =
    if nat_beq c b'#'
    then (if nat_beq d b'\n'
        then none
        else elim (code_end cs) [ none ↦ none | some code ↦ some (b'#' ∷ d ∷ code) ])
    else none

abbrev pub push : ℕ → List Text → List Text
push c [] = (c ∷ []) ∷ []
push c (t ∷ ts) = (c ∷ t) ∷ ts

-- `_TEXT_RE.split(text)`: the texts between the codes and the codes by turns. The number counts the
-- characters that belong to the last match, its `&` included.
unfoldable pub split_from : ℕ → Text → List Text
unfolding code_at
split_from n [] = [] ∷ []
split_from (suc n) (c ∷ cs) = split_from n cs
split_from zero (c ∷ cs) = elim (code_at (c ∷ cs)) [
  | none ↦ push c (split_from zero cs)
  | some code ↦ [] ∷ code ∷ split_from (length code) cs
]

unfoldable pub split : Text → List Text
unfolding split_from
split = split_from 0

-- `_TEXT_RE.sub("", text)`
unfoldable pub sub_from : ℕ → Text → Text
unfolding code_at
sub_from n [] = []
sub_from (suc n) (c ∷ cs) = sub_from n cs
sub_from zero (c ∷ cs) = elim (code_at (c ∷ cs)) [
  | none ↦ c ∷ sub_from zero cs
  | some code ↦ sub_from (length code) cs
]

unfoldable pub sub : Text → Text
unfolding sub_from
sub = sub_from 0

-- `text.split("\n")`
unfoldable pub lines : Text → List Text
lines [] = [] ∷ []
lines (c ∷ cs) = let rest = lines cs in if nat_beq c b'\n' then [] ∷ rest else push c rest

abbrev pub max_ℕ : ℕ → ℕ → ℕ
max_ℕ a b = if ltb a b then b else a

abbrev pub max_width : ℕ → List Text → ℕ
max_width n [] = n
max_width n (t ∷ ts) = max_width (max_ℕ n (length (sub t) + 2)) ts

-- `_text_width`; there is always a first line
unfoldable pub text_width : Text → ℕ
unfolding lines sub
text_width t = max_width 0 (lines t)

abbrev pub spaces : ℕ → Text
spaces zero = []
spaces (suc n) = b' ' ∷ spaces n

-- `_just`: half of a negative padding is no space at all
unfoldable pub just : ℕ → Text → Text
just width t = spaces ((width - length t) / 2) ++ t

unfoldable pub justify_rows : Text → List Text
unfolding text_width just lines
justify_rows t = map (just (text_width t)) (lines t)
