-- ===== src/Connmon/Display/Sound.antt =====
-- connmon/display.py: displays whose screens are in order.
use sqlalchemy_collectd.Base.{
  ℕ, ◌<◌, ◌≤◌, ◌≡◌, refl, ap, none, some, ◌∷◌, length, All, ◌⊎◌, List, [], Option, Error, inl, inr,
  Result, ok, raise, arith, pair_eq, nat_eq,
}
use sqlalchemy_collectd.Connmon.Layout.{program_columns, host_columns, calc_x_positions}
use sqlalchemy_collectd.Connmon.Display.{
  Screen, prog_stats_layout, host_stats_layout, key_layout, Size, Display, Terminal, at, put_at,
  pre_display, resize, unless_raised, set_screen, resize_screen, refresh_winsize,
}
use sqlalchemy_collectd.Connmon.Display.Store.{at-put_at, put_at-twice}

-- the screen that `_refresh_winsize(screen)` leaves in the place of the one it is given
abbrev pub displayed : Terminal → ℕ → Screen → Display → Display
displayed terminal n s d = record d {
  store = put_at n (resize s terminal.getmaxyx) d.store;
  screen = some n;
  winsize = some terminal.getmaxyx;
  drawn = n ∷ d.drawn;
}

pub unless_raised-none {ℓ} :
    {A : Type ℓ} (o : Option Error) (r : Result A) → o ≡ none → unless_raised o r ≡ r
unless_raised-none o r h = rw h refl

pub refresh_winsize-displayed :
    (terminal : Terminal) (n : ℕ) (d : Display) (s s' : Screen)
    → at n d.store ≡ ok s
    → pre_display s d.screen ≡ ok s'
    → refresh_winsize terminal (some n) d
      ≡ unless_raised terminal.render_raises (ok (displayed terminal n s' d))
unfolding refresh_winsize set_screen resize_screen
refresh_winsize-displayed terminal n d s s' found shown = rw found (
    rw shown (
      rw (at-put_at n d.store s s' found) (
        ap
          (λ ss. unless_raised terminal.render_raises (
            ok (record d {
              store = ss;
              screen = some n;
              winsize = some terminal.getmaxyx;
              drawn = n ∷ d.drawn;
            })))
          (put_at-twice n d.store s' (resize s' terminal.getmaxyx)))))

-- A legend knows where to go back to.
abbrev pub IsClosed : ℕ → Screen → Type 0
IsClosed n (key_layout none) = ⊥
IsClosed n (key_layout (some m)) = m < n
IsClosed n (prog_stats_layout places) = Unit {0}
IsClosed n (host_stats_layout places) = Unit {0}

-- The columns of a screen are those for a window of this size.
abbrev pub IsCurrent : Size → Screen → Type 0
IsCurrent size (prog_stats_layout places) = places ≡ some (calc_x_positions size.1 program_columns)
IsCurrent size (host_stats_layout places) = places ≡ some (calc_x_positions size.1 host_columns)
IsCurrent size (key_layout previous) = Unit {0}

-- One screen is shown, as the size of the window that is known asks, and every legend knows its way
-- back.
pub record IsSound (d : Display) : Type 0 where
  pub n : ℕ
  pub s : Screen
  pub size : Size
  pub shown : d.screen ≡ some n
  pub found : at n d.store ≡ ok s
  pub sized : d.winsize ≡ some size
  pub current : IsCurrent size s
  pub closed : All (IsClosed (length d.store)) d.store

pub resize-IsCurrent : (s : Screen) (size : Size) → IsCurrent size (resize s size)
resize-IsCurrent (prog_stats_layout places) size = refl
resize-IsCurrent (host_stats_layout places) size = refl
resize-IsCurrent (key_layout previous) size = tt

pub resize-IsClosed : (s : Screen) (size : Size) (n : ℕ) → IsClosed n s → IsClosed n (resize s size)
resize-IsClosed (prog_stats_layout places) size n h = tt
resize-IsClosed (host_stats_layout places) size n h = tt
resize-IsClosed (key_layout previous) size n h = h

pub IsClosed-more : (s : Screen) (m n : ℕ) → m ≤ n → IsClosed m s → IsClosed n s
IsClosed-more (prog_stats_layout places) m n h k = tt
IsClosed-more (host_stats_layout places) m n h k = tt
IsClosed-more (key_layout none) m n h k = k
IsClosed-more (key_layout (some p)) m n h k = omega arith

-- a screen before it is shown: a legend gets its way back then
abbrev pub shown_by : Screen → ℕ → Screen
shown_by (key_layout previous) m = key_layout (some m)
shown_by (prog_stats_layout places) m = prog_stats_layout places
shown_by (host_stats_layout places) m = host_stats_layout places

pub pre_display-shown_by : (s : Screen) (m : ℕ) → pre_display s (some m) ≡ ok (shown_by s m)
pre_display-shown_by (key_layout previous) m = refl
pre_display-shown_by (prog_stats_layout places) m = refl
pre_display-shown_by (host_stats_layout places) m = refl

pub shown_by-IsClosed : (s : Screen) (m n : ℕ) → m < n → IsClosed n (shown_by s m)
shown_by-IsClosed (key_layout previous) m n h = h
shown_by-IsClosed (prog_stats_layout places) m n h = tt
shown_by-IsClosed (host_stats_layout places) m n h = tt

-- a call that returns a sound display
abbrev pub ReturnsSound : Result Display → Type 0
ReturnsSound r = (d : Display) × (r ≡ ok d) × IsSound d

-- a call of `_render` that raises this
abbrev pub Raises : Error → List Terminal → Type 0
Raises e [] = ⊥
Raises e (t ∷ ts) = ((t.timer_raises ≡ some e) ⊎ (t.render_raises ≡ some e)) ⊎ Raises e ts

-- a call that returns a sound display, or ends with the exception of a call of `_render`
abbrev pub EndsSound : List Terminal → Result Display → Type 0
EndsSound ts r = ReturnsSound r ⊎ ((e : Error) × Raises e ts × (r ≡ raise e))

pub unless_raised-EndsSound :
    (terminal : Terminal) (o : Option Error) (r : Result Display)
    → ((e : Error) → o ≡ some e → Raises e (terminal ∷ []))
    → ReturnsSound r
    → EndsSound (terminal ∷ []) (unless_raised o r)
unless_raised-EndsSound terminal none r h sound = inl sound
unless_raised-EndsSound terminal (some e) r h sound = inr (e, h e refl, refl)
