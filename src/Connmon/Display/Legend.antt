-- ===== src/Connmon/Display/Legend.antt =====
-- connmon/display.py: the way back from the legend.
use sqlalchemy_collectd.Base.{
  ℕ, All, ◌≡◌, refl, sym, ◌∙◌, inl, inr, Bool-cases, none, some, List, [], ◌∷◌, ◌++◌, length, map,
  ℤ, pos, Result, ok, ◌>>=◌, arith,
}
use mathlib.Core.Path.{subst}
use sqlalchemy_collectd.Connmon.Display.{
  Screen, prog_stats_layout, host_stats_layout, key_layout, Display, Terminal, at, resize, show_new,
  press_escape, command, run_command, escape, handle_cmds, handle_each,
}
use sqlalchemy_collectd.Connmon.Display.Store.{
  at-put_at, at-put_at_other, at-append, at-last, at-lt,
}
use sqlalchemy_collectd.Connmon.Display.Sound.{
  displayed, refresh_winsize-displayed, unless_raised-none, IsSound, shown_by, pre_display-shown_by,
}
use sqlalchemy_collectd.Connmon.Display.Commands.{escape-at}

-- the display after `?`
abbrev with_legend : Terminal → ℕ → Display → Display
with_legend terminal n d =
    displayed terminal (length d.store) (key_layout (some n))
      (record d { store = d.store ++ key_layout none ∷ [] })

show_new-with_legend :
    (terminal : Terminal) (n : ℕ) (d : Display)
    → d.screen ≡ some n
    → terminal.render_raises ≡ none
    → show_new terminal (key_layout none) d ≡ ok (with_legend terminal n d)
unfolding show_new
show_new-with_legend terminal n d shown quiet =
    refresh_winsize-displayed terminal (length d.store)
      (record d { store = d.store ++ key_layout none ∷ [] }) (key_layout none) (key_layout (some n))
      (at-last d.store (key_layout none)) (rw shown refl)
    ∙ unless_raised-none terminal.render_raises _ quiet

-- The new legend goes back to the place it came from; what stood in the store before still stands.
at-legend :
    (terminal : Terminal) (n : ℕ) (d : Display)
    → at (length d.store) (with_legend terminal n d).store ≡ ok (key_layout (some n))
at-legend terminal n d =
    at-put_at (length d.store) (d.store ++ key_layout none ∷ []) (key_layout none)
      (key_layout (some n)) (at-last d.store (key_layout none))

at-old :
    (terminal : Terminal) (n : ℕ) (d : Display) (m : ℕ) {s : Screen}
    → at m d.store ≡ ok s
    → at m (with_legend terminal n d).store ≡ ok s
at-old terminal n d m {s} found =
    at-put_at_other m (length d.store) (d.store ++ key_layout none ∷ []) (key_layout (some n))
      (λ e. omega (arith, at-lt m d.store found))
    ∙ at-append m d.store (key_layout none ∷ []) s found

-- Escape in a legend.
escape-displayed :
    (terminal : Terminal) (a b : ℕ) (s : Screen) (d : Display)
    → d.screen ≡ some a
    → at a d.store ≡ ok (key_layout (some b))
    → at b d.store ≡ ok s
    → terminal.render_raises ≡ none
    → run_command terminal escape d ≡ ok (displayed terminal b (shown_by s a) d)
unfolding press_escape
escape-displayed terminal a b s d shown found back quiet =
    escape-at terminal a (key_layout (some b)) d shown found
    ∙ refresh_winsize-displayed terminal b d s (shown_by s a) back
        (rw shown (pre_display-shown_by s a))
    ∙ unless_raised-none terminal.render_raises _ quiet

-- the screen in a place is shown, and is this one
abbrev pub ShowsScreen : ℕ → Screen → Result Display → Type 0
ShowsScreen n s r = (d : Display) × (r ≡ ok d) × (d.screen ≡ some n) × (at n d.store ≡ ok s)

-- a screen with figures
abbrev pub IsStat : Screen → Type 0
IsStat (key_layout previous) = ⊥
IsStat (prog_stats_layout places) = Unit {0}
IsStat (host_stats_layout places) = Unit {0}

shown_by-IsStat : (s : Screen) (m : ℕ) → IsStat s → shown_by s m ≡ s
shown_by-IsStat (key_layout previous) m h = absurd h
shown_by-IsStat (prog_stats_layout places) m h = refl
shown_by-IsStat (host_stats_layout places) m h = refl

-- From a screen with figures, `?` and then escape shows the same screen again, with its columns
-- placed for the window as it is then, if neither call of `_render` raises.
pub legend-escape :
    (key_resize : ℕ) (first second : Terminal) (d : Display) (h : IsSound d)
    → IsStat h.s
    → first.render_raises ≡ none
    → second.render_raises ≡ none
    → ShowsScreen h.n
        (resize h.s second.getmaxyx)
        (handle_cmds key_resize first (pos b'?') d >>= handle_cmds key_resize second (pos 27))
unfolding handle_cmds command run_command
legend-escape key_resize first second d h stat quiet_first quiet_second =
    rw (show_new-with_legend first h.n d h.shown quiet_first) (
      subst (ShowsScreen h.n (resize h.s second.getmaxyx))
        (sym (
          escape-displayed second (length d.store) h.n h.s (with_legend first h.n d) refl
            (at-legend first h.n d) (at-old first h.n d h.n h.found) quiet_second))
        (
          _,
          refl,
          refl,
          at-put_at h.n (with_legend first h.n d).store h.s
                (resize (shown_by h.s (length d.store)) second.getmaxyx)
                (at-old first h.n d h.n h.found)
              ∙ rw (shown_by-IsStat h.s (length d.store) stat) refl,
        ))

-- Two legends that go back to each other, and one of them is shown.
record IsLoop (d : Display) : Type 0 where
  a : ℕ
  b : ℕ
  previous : ℕ
  shown : d.screen ≡ some a
  found : at a d.store ≡ ok (key_layout (some b))
  back : at b d.store ≡ ok (key_layout (some previous))
  differ : (a ≡ b) → ⊥

-- a legend is shown
abbrev pub ShowsLegend : Result Display → Type 0
ShowsLegend r = (n m : ℕ) × ShowsScreen n (key_layout (some m)) r

escape-IsLoop :
    (terminal : Terminal) (d : Display)
    → IsLoop d
    → terminal.render_raises ≡ none
    → (d' : Display) × (run_command terminal escape d ≡ ok d') × IsLoop d'
escape-IsLoop terminal d h quiet = (
  displayed terminal h.b (key_layout (some h.a)) d,
  escape-displayed terminal h.a h.b (key_layout (some h.previous)) d h.shown h.found h.back quiet,
  record {
    a = h.b;
    b = h.a;
    previous = h.b;
    shown = refl;
    found = at-put_at h.b d.store (key_layout (some h.previous)) (key_layout (some h.a)) h.back;
    back = at-put_at_other h.a h.b d.store (key_layout (some h.a)) h.differ ∙ h.found;
    differ = λ e. h.differ (sym e);
  },
)

-- no call of `_render` raises
abbrev pub IsQuiet : Terminal → Type 0
IsQuiet t = (t.timer_raises ≡ none) × (t.render_raises ≡ none)

-- escape, over and over
abbrev pub escapes : List Terminal → List (Terminal × ℤ)
escapes = map (λ terminal. (terminal, pos 27))

escapes-ShowsLegend :
    (key_resize : ℕ) (terminals : List Terminal) (d : Display)
    → IsLoop d
    → All IsQuiet terminals
    → ShowsLegend (handle_each key_resize (escapes terminals) d)
unfolding handle_each handle_cmds command
escapes-ShowsLegend key_resize [] d h quiet = (h.a, h.b, (d, refl, h.shown, h.found))
escapes-ShowsLegend key_resize (terminal ∷ terminals) d h quiet = elim (Bool-cases d.enabled) [
  | inl on ↦
      let (d', e, h') = escape-IsLoop terminal d h quiet.0.1 in
      rw (handle_each, on)
        (rw (quiet.0.0, e) (escapes-ShowsLegend key_resize terminals d' h' quiet.1))
  | inr off ↦ rw (handle_each, off) (h.a, h.b, (d, refl, h.shown, h.found))
]

-- After `?` was pressed twice, escape shows a legend however often it is pressed, as long as no call
-- of `_render` raises.
pub legend-twice :
    (key_resize : ℕ) (first second : Terminal) (terminals : List Terminal) (d : Display)
    → IsSound d
    → first.render_raises ≡ none
    → second.render_raises ≡ none
    → All IsQuiet terminals
    → ShowsLegend (
        handle_cmds key_resize first (pos b'?') d
        >>= handle_cmds key_resize second (pos b'?')
        >>= handle_each key_resize (escapes terminals))
unfolding handle_cmds command run_command
legend-twice key_resize first second terminals d h quiet_first quiet_second quiet =
    let once = with_legend first h.n d in
    rw (show_new-with_legend first h.n d h.shown quiet_first) (
      rw (show_new-with_legend second (length d.store) once refl quiet_second) (
        escapes-ShowsLegend key_resize terminals (with_legend second (length d.store) once)
          (record {
            a = length once.store;
            b = length d.store;
            previous = h.n;
            shown = refl;
            found = at-legend second (length d.store) once;
            back = at-old second (length d.store) once (length d.store) (at-legend first h.n d);
            differ =
                λ e. omega (arith, e, at-lt (length d.store) once.store (at-legend first h.n d));
          })
          quiet))
