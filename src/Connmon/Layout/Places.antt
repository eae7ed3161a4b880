-- ===== src/Connmon/Layout/Places.antt =====
-- connmon/display.py: the columns stand side by side.
use sqlalchemy_collectd.Base.{
  ℕ, ◌+◌, ◌≤◌, ◌≡◌, refl, ◌⊎◌, inl, inr, List, [], ◌∷◌, All, ℤ, pos, ◌+ℤ◌, ◌-ℤ◌, ◌≤ℤ◌, +ℤ_parts,
  -ℤ_parts, arith,
}
use sqlalchemy_collectd.Connmon.Markup.{text_width}
use sqlalchemy_collectd.Connmon.Layout.{
  left, right, Column, figures, program_columns, host_columns, charwidth, width_from,
  positions_from, calc_x_positions,
}

-- Places between two columns of the window: each begins where the one before ends, or further on.
abbrev pub AreOrdered : ℤ → ℤ → List (ℤ × ℕ) → Type 0
AreOrdered low high [] = low ≤ℤ high
AreOrdered low high ((x, width) ∷ places) = (low ≤ℤ x) × AreOrdered (x +ℤ pos width) high places

abbrev AreRight : List Column → Type 0
AreRight = All (λ c. c.just ≡ right)

-- no column on the left after one on the right
abbrev pub IsLeftFirst : List Column → Type 0
IsLeftFirst [] = Unit {0}
IsLeftFirst (c ∷ cs) = ((c.just ≡ left) × IsLeftFirst cs) ⊎ AreRight (c ∷ cs)

module _ (columns : ℕ) where
  rights-AreOrdered :
      (cs : List Column) (x low : ℤ)
      → AreRight cs
      → low ≤ℤ pos columns -ℤ pos (width_from columns cs)
      → AreOrdered low (pos columns) (positions_from columns x cs)
  unfolding width_from positions_from
  rights-AreOrdered [] x low h fits = ground (arith, -ℤ_parts (pos columns) (pos 0))
  rights-AreOrdered (c ∷ cs) x low (h, hs) fits =
      let here = pos columns -ℤ pos (width_from columns (c ∷ cs)) in
      rw h (
        fits,
        rights-AreOrdered cs here (here +ℤ pos (charwidth columns c)) hs (
            ground (
              arith,
              +ℤ_parts here (pos (charwidth columns c)),
              -ℤ_parts (pos columns) (pos (width_from columns (c ∷ cs))),
              -ℤ_parts (pos columns) (pos (width_from columns cs)),
            )),
      )

  positions_from-AreOrdered :
      (cs : List Column) (x : ℤ)
      → IsLeftFirst cs
      → x +ℤ pos (width_from columns cs) ≤ℤ pos columns
      → AreOrdered x (pos columns) (positions_from columns x cs)
  unfolding width_from positions_from
  positions_from-AreOrdered [] x h fits = ground (arith, +ℤ_parts x (pos 0))
  positions_from-AreOrdered (c ∷ cs) x (inl (h, hs)) fits =
      let width = charwidth columns c in
      rw h (
        omega arith,
        positions_from-AreOrdered cs (x +ℤ pos width) hs (
            ground (
              arith,
              +ℤ_parts x (pos width),
              +ℤ_parts (x +ℤ pos width) (pos (width_from columns cs)),
              +ℤ_parts x (pos (width + width_from columns cs)),
            )),
      )
  positions_from-AreOrdered (c ∷ cs) x (inr h) fits = rights-AreOrdered (c ∷ cs) x x h (
      ground (
        arith,
        +ℤ_parts x (pos (width_from columns (c ∷ cs))),
        -ℤ_parts (pos columns) (pos (width_from columns (c ∷ cs))),
      ))

  -- `_calc_x_positions` lets the columns stand side by side, in order, between the two edges of the
  -- window, where they have room in it and no column at the left follows one at the right.
  pub calc_x_positions-AreOrdered :
      (cs : List Column)
      → IsLeftFirst cs
      → width_from columns cs ≤ columns
      → AreOrdered (pos 0) (pos columns) (calc_x_positions columns cs)
  unfolding calc_x_positions
  calc_x_positions-AreOrdered cs h fits =
      positions_from-AreOrdered cs (pos 0) h
        (ground (arith, +ℤ_parts (pos 0) (pos (width_from columns cs))))

program_columns-fit : (columns : ℕ) → 110 ≤ columns → width_from columns program_columns ≤ columns
unfolding width_from charwidth text_width
program_columns-fit columns h = ground arith

host_columns-fit : (columns : ℕ) → 90 ≤ columns → width_from columns host_columns ≤ columns
unfolding width_from charwidth text_width
host_columns-fit columns h = ground arith

-- The columns of both screens stand side by side, in order and inside the window: those of programs
-- in every window of 110 columns or more, those of hosts in every one of 90 or more.
pub screens-AreOrdered :
    (columns narrow : ℕ)
    → 110 ≤ columns
    → 90 ≤ narrow
    → AreOrdered (pos 0) (pos columns) (calc_x_positions columns program_columns)
      × AreOrdered (pos 0) (pos narrow) (calc_x_positions narrow host_columns)
screens-AreOrdered columns narrow h k = (
  calc_x_positions-AreOrdered columns program_columns (inl (refl, inl (refl, inr rights)))
      (program_columns-fit columns h),
  calc_x_positions-AreOrdered narrow host_columns (inl (refl, inr rights))
      (host_columns-fit narrow k),
)
  where
    rights : AreRight figures
    rights = (refl, (refl, (refl, (refl, (refl, tt)))))
