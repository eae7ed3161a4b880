-- ===== src/Tests/Displays.antt =====
-- The screen of the monitor.
use sqlalchemy_collectd.Base.{
  ◌*◌, ℕ, ◌≡◌, refl, inr, none, map, List, ℤ, some, [], ◌∷◌, pos, negsuc, true, false, ok, ◌>>=◌,
  arith, ◌-ℤ◌, ◌+ℤ◌, inl, raise, assertion_error,
}
use sqlalchemy_collectd.CollectdTypes.{text}
use sqlalchemy_collectd.Connmon.Layout.{program_columns, host_columns, calc_x_positions}
use sqlalchemy_collectd.Connmon.Layout.Places.{AreOrdered, screens-AreOrdered}
use sqlalchemy_collectd.Connmon.Display.{
  start_colors, prog_stats_layout, Display, Terminal, at, put_at, set_screen, resize_screen,
  refresh_winsize, show_new, start_impl, handle_cmds, handle_each,
}
use sqlalchemy_collectd.Connmon.Display.Sound.{IsSound, EndsSound}
use sqlalchemy_collectd.Connmon.Display.Commands.{session-EndsSound}
use sqlalchemy_collectd.Connmon.Display.Legend.{
  ShowsScreen, ShowsLegend, escapes, legend-escape, legend-twice,
}
use sqlalchemy_collectd.Connmon.Markup.{split, sub, text_width}
use sqlalchemy_collectd.Connmon.Render.{Colors, start_x, render_str}
use sqlalchemy_collectd.Connmon.Render.Visible.{render_str-Shows}
use sqlalchemy_collectd.Connmon.Render.Pieces.{Shows}
use sqlalchemy_collectd.Connmon.Render.Stray.{render_str-stray}

abbrev colors : Colors
colors = start_colors (λ n. n * 256) 2097152 0

-- a host centered at the right of a narrow window
render_str-Shows_example :
    Shows
      (pos 15)
      (pos 20)
      (text "db1.e")
      (render_str 20 8 (pos 10) (text "#Gb&db1#d&.example") (text "D") none (some 23) colors)
unfolding split sub text_width start_x ◌-ℤ◌ ◌+ℤ◌
render_str-Shows_example =
    render_str-Shows 20 8 (pos 10) (text "#Gb&db1#d&.example") b'D' [] none (some 23) colors 5
      ((2304, refl), tt)
      (refl, refl, inr ((1280, refl), ((2097152, refl), tt)), (refl, refl, inl refl, refl)) refl

render_str-stray_example :
    render_str 80 8 (pos 14) (text "#1") (text "D") none none colors
    ≡ record { colors = colors; writes = []; result = raise assertion_error }
render_str-stray_example =
    render_str-stray 80 8 (pos 14) (text "1") (text "D") none none colors 2304 refl (refl, tt) refl
      (refl, refl)

-- a window of 40 rows and so many columns, in which nothing raises
abbrev terminal : ℕ → Terminal
terminal columns = record {
  getmaxyx = (40, columns);
  is_term_resized = false;
  timer_raises = none;
  render_raises = none;
}

-- the display after the start
abbrev started : Display
started = record {
  store = prog_stats_layout (some (calc_x_positions 120 program_columns)) ∷ [];
  screen = some 0;
  winsize = some (40, 120);
  enabled = true;
  drawn = 0 ∷ [];
}

unfoldable started-IsSound : IsSound started
unfolding at
started-IsSound = record {
  n = 0;
  s = prog_stats_layout (some (calc_x_positions 120 program_columns));
  size = (40, 120);
  shown = refl;
  found = refl;
  sized = refl;
  current = refl;
  closed = (tt, tt);
}

start_impl-started : start_impl (terminal 120) ≡ ok started
unfolding start_impl show_new refresh_winsize set_screen resize_screen at put_at
start_impl-started = refl

abbrev chars : List (Terminal × ℤ)
chars =
    (terminal 120, pos b'h')
    ∷ (terminal 120, pos b'?')
    ∷ (terminal 150, pos 410)
    ∷ (terminal 150, pos 27)
    ∷ (terminal 150, negsuc 0)
    ∷ (terminal 150, pos b'Q')
    ∷ []

-- the screen of hosts, the legend, a window that grows, the way back, the end
session-EndsSound_example :
    EndsSound
      (terminal 120 ∷ map (λ c. c.0) chars)
      (start_impl (terminal 120) >>= handle_each 410 chars)
session-EndsSound_example = session-EndsSound 410 (terminal 120) chars

legend-escape_example :
    ShowsScreen 0 (prog_stats_layout (some (calc_x_positions 150 program_columns))) (
      handle_cmds 410 (terminal 120) (pos b'?') started >>= handle_cmds 410 (terminal 150) (pos 27))
unfolding started-IsSound
legend-escape_example =
    legend-escape 410 (terminal 120) (terminal 150) started started-IsSound tt refl refl

legend-twice_example : ShowsLegend (
    handle_cmds 410 (terminal 120) (pos b'?') started
    >>= handle_cmds 410 (terminal 120) (pos b'?')
    >>= handle_each 410 (escapes (terminal 120 ∷ terminal 120 ∷ terminal 120 ∷ [])))
legend-twice_example =
    legend-twice 410 (terminal 120) (terminal 120) (terminal 120 ∷ terminal 120 ∷ terminal 120 ∷ [])
      started started-IsSound refl refl ((refl, refl), ((refl, refl), ((refl, refl), tt)))

screens-AreOrdered_example :
    AreOrdered (pos 0) (pos 120) (calc_x_positions 120 program_columns)
    × AreOrdered (pos 0) (pos 95) (calc_x_positions 95 host_columns)
screens-AreOrdered_example = screens-AreOrdered 120 95 (omega arith) (omega arith)
