-- ===== src/Connmon/Layout.antt =====
-- connmon/display.py: the columns of the two screens with figures, and where they stand.
pub mod Places
use sqlalchemy_collectd.Base.{ℕ, ◌+◌, ◌*◌, ◌/◌, List, [], ◌∷◌, ◌++◌, ℤ, pos, ◌+ℤ◌, ◌-ℤ◌}
use sqlalchemy_collectd.Protocol.Bytes.{Text}
use sqlalchemy_collectd.CollectdTypes.{text}
use sqlalchemy_collectd.Connmon.Markup.{text_width, max_ℕ}

pub data Just : Type 0 where
  left right : Just

-- The share of the window is in percent, which the source writes as 0.18.
pub record Column : Type 0 where
  pub cname : Text
  pub fmt : Text
  pub col_width : ℕ
  pub just : Just

abbrev column : Text → Text → ℕ → Just → Column
column cname fmt col_width just = record {
  cname = cname;
  fmt = fmt;
  col_width = col_width;
  just = just;
}

abbrev pub hostname_column : Column
hostname_column = column (text "hostname\n(#R&[dis]#G&connected#d&)") (text "%s") 18 left

-- the columns of both screens behind the names
abbrev pub figures : List Column
figures =
    column (text "last msg\nsecs / int") (text "%s/%3d") 10 right
    ∷ column (text "processes\ncurr / max") (text "%4d/%4d") 15 right
    ∷ column (text "connections\ncurr / max / int") (text "%4d/%4d/%4d") 15 right
    ∷ column (text "checkouts\ncurr / max / int") (text "%4d/%4d/%4d") 15 right
    ∷ column (text "checkouts\n/sec") (text "%.2f") 10 right
    ∷ []

-- `ProgStatsLayout.columns`
abbrev pub program_columns : List Column
program_columns = hostname_column ∷ column (text "progname") (text "%s") 15 left ∷ figures

-- `HostStatsLayout.columns`
abbrev pub host_columns : List Column
host_columns = hostname_column ∷ figures

-- `max(text_width, layout_width)` in a window of so many columns
unfoldable pub charwidth : ℕ → Column → ℕ
charwidth columns c = max_ℕ (text_width c.cname) (columns * c.col_width / 100)

-- the `sum` over the columns from one on
unfoldable pub width_from : ℕ → List Column → ℕ
width_from columns [] = 0
width_from columns (c ∷ cs) = charwidth columns c + width_from columns cs

-- the loop of `_calc_x_positions`
unfoldable pub positions_from : ℕ → ℤ → List Column → List (ℤ × ℕ)
positions_from columns x [] = []
positions_from columns x (c ∷ cs) = elim c.just [
  | left ↦ (x, charwidth columns c) ∷ positions_from columns (x +ℤ pos (charwidth columns c)) cs
  | right ↦
      let x' = pos columns -ℤ pos (width_from columns (c ∷ cs)) in
      (x', charwidth columns c) ∷ positions_from columns x' cs
]

unfoldable pub calc_x_positions : ℕ → List Column → List (ℤ × ℕ)
calc_x_positions columns = positions_from columns (pos 0)
