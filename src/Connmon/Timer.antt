-- ===== src/Connmon/Timer.antt =====
-- connmon/util.py: the timer of the screen, `periodic_timer`.
use sqlalchemy_collectd.Base.{
  ◌≡◌, inl, inr, Bool, true, false, Bool-cases, List, [], ◌∷◌, if◌then◌else◌, ℤ, ◌-ℤ◌, ltb_ℤ,
}

-- `check.interval` is in ticks, as times are.
pub record Timer : Type 0 where
  pub interval : ℤ
  pub last_check : ℤ

-- `periodic_timer`
abbrev pub periodic_timer : ℤ → ℤ → Timer
periodic_timer interval start = record { interval = interval; last_check = start }

-- `reset`
abbrev pub reset : ℤ → Timer → Timer
reset now t = record t { last_check = now }

-- `check`
unfoldable pub check : ℤ → Timer → Timer × Bool
check now t =
    if ltb_ℤ t.interval (now -ℤ t.last_check)
    then (record t { last_check = now }, true)
    else (t, false)

-- the times of calls that return True
unfoldable pub fired : List ℤ → Timer → List ℤ
unfolding check
fired [] t = []
fired (now ∷ nows) t =
    let (t', is_time) = check now t in
    let rest = fired nows t' in if is_time then now ∷ rest else rest

-- Each time is more than an interval after the one before.
abbrev pub AreApart : ℤ → ℤ → List ℤ → Type 0
AreApart interval last [] = Unit {0}
AreApart interval last (now ∷ nows) =
    (ltb_ℤ interval (now -ℤ last) ≡ true) × AreApart interval now nows

-- The calls of a timer that return True are more than its interval apart.
pub fired-AreApart : (nows : List ℤ) (t : Timer) → AreApart t.interval t.last_check (fired nows t)
unfolding fired check
fired-AreApart [] t = tt
fired-AreApart (now ∷ nows) t = elim (Bool-cases (ltb_ℤ t.interval (now -ℤ t.last_check))) [
  | inl due ↦ rw due (due, fired-AreApart nows (record t { last_check = now }))
  | inr early ↦ rw early (fired-AreApart nows t)
]
