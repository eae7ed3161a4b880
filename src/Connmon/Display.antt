-- ===== src/Connmon/Display.antt =====
-- connmon/display.py: the screens, the commands of the keyboard and the size of the window. The
-- screens are objects that others refer to, so they stand in a store; a reference is a place there.
pub mod Store
pub mod Sound
pub mod Commands
pub mod Legend
use sqlalchemy_collectd.Base.{
  ℕ, zero, suc, Bool, true, false, ◌||◌, not, Option, none, some, List, [], ◌∷◌, ◌++◌, length,
  if◌then◌else◌, ◌==◌, pair_eq, nat_eq, nat_beq, ℤ, pos, negsuc, Result, ok, raise, Error,
  attribute_error, ◌>>=◌,
}
use sqlalchemy_collectd.CollectdTypes.{text}
use sqlalchemy_collectd.Connmon.Render.{Colors}
use sqlalchemy_collectd.Connmon.Layout.{program_columns, host_columns, calc_x_positions}

-- An attribute that is not set yet is `none`.
pub data Screen : Type 0 where
  prog_stats_layout host_stats_layout : Option (List (ℤ × ℕ)) → Screen
  key_layout : Option ℕ → Screen

-- `(rows, columns)`
abbrev pub Size : Type 0
Size = ℕ × ℕ

-- `drawn` lists the screens that `_render` was called for, the last one first.
pub record Display : Type 0 where
  pub store : List Screen
  pub screen : Option ℕ
  pub winsize : Option Size
  pub enabled : Bool
  pub drawn : List ℕ

-- What the window and curses answer while one character is handled, and the exceptions with which
-- `_render` ends where it is called and does not return: the call by the timer of `run_async`, if there is
-- one before the character, and the one of `_refresh_winsize`.
pub record Terminal : Type 0 where
  pub getmaxyx : Size
  pub is_term_resized : Bool
  pub timer_raises : Option Error
  pub render_raises : Option Error

-- the exception of a call, if it ends with one, and else what follows
abbrev pub unless_raised {ℓ} : {A : Type ℓ} → Option Error → Result A → Result A
unless_raised none r = r
unless_raised (some e) r = raise e

unfoldable pub at : ℕ → List Screen → Result Screen
at n [] = raise attribute_error
at zero (s ∷ ss) = ok s
at (suc n) (s ∷ ss) = at n ss

unfoldable pub put_at : ℕ → Screen → List Screen → List Screen
put_at n s [] = []
put_at zero s (t ∷ ss) = s ∷ ss
put_at (suc n) s (t ∷ ss) = t ∷ put_at n s ss

-- an attribute that must be set
abbrev pub attribute : Option ℕ → Result ℕ
attribute none = raise attribute_error
attribute (some n) = ok n

-- `screen.pre_display(display)`
abbrev pub pre_display : Screen → Option ℕ → Result Screen
pre_display (key_layout previous) screen = do s ← attribute screen; ok (key_layout (some s))
pre_display (prog_stats_layout places) screen = ok (prog_stats_layout places)
pre_display (host_stats_layout places) screen = ok (host_stats_layout places)

-- `screen.resize(display)`
abbrev pub resize : Screen → Size → Screen
resize (prog_stats_layout places) size =
    prog_stats_layout (some (calc_x_positions size.1 program_columns))
resize (host_stats_layout places) size =
    host_stats_layout (some (calc_x_positions size.1 host_columns))
resize (key_layout previous) size = key_layout previous

-- `self.screen.resize(self)`
unfoldable pub resize_screen : Size → Display → Result Display
unfolding at put_at
resize_screen size d = do
  n ← attribute d.screen
  s ← at n d.store
  ok (record d { store = put_at n (resize s size) d.store })

-- `screen.pre_display(self)` and `self.screen = screen`
unfoldable pub set_screen : ℕ → Display → Result Display
unfolding at put_at
set_screen n d = do
  s ← at n d.store
  s' ← pre_display s d.screen
  ok (record d { store = put_at n s' d.store; screen = some n })

abbrev pub is_new_size : Option Size → Size → Bool → Bool
is_new_size none size resized = true
is_new_size (some old) size resized = not (old == size) || resized

-- `_refresh_winsize(screen)`
unfoldable pub refresh_winsize : Terminal → Option ℕ → Display → Result Display
unfolding resize_screen set_screen
refresh_winsize terminal none d =
    let sized = record d { winsize = some terminal.getmaxyx } in
    if is_new_size d.winsize terminal.getmaxyx terminal.is_term_resized
    then resize_screen terminal.getmaxyx sized
    else ok sized
refresh_winsize terminal (some n) d = do
  shown ← set_screen n (record d { winsize = some terminal.getmaxyx })
  resized ← resize_screen terminal.getmaxyx shown
  unless_raised terminal.render_raises (ok (record resized { drawn = n ∷ resized.drawn }))

-- a new screen, which is displayed
unfoldable pub show_new : Terminal → Screen → Display → Result Display
unfolding refresh_winsize
show_new terminal s d =
    refresh_winsize terminal (some (length d.store)) (record d { store = d.store ++ s ∷ [] })

unfoldable pub press_escape : Terminal → Screen → Display → Result Display
unfolding refresh_winsize
press_escape terminal (key_layout previous) d = do
  n ← attribute previous
  refresh_winsize terminal (some n) d
press_escape terminal (prog_stats_layout places) d = ok d
press_escape terminal (host_stats_layout places) d = ok d

-- `_start_impl`, in what concerns the screens
unfoldable pub start_impl : Terminal → Result Display
unfolding show_new
start_impl terminal =
    show_new terminal (prog_stats_layout none)
      (record { store = []; screen = none; winsize = none; enabled = true; drawn = [] })

-- The attributes of the letters in `_start_impl`: pairs of the colors in `COLOR_MAP`, one for each
-- number from 1 on, and two more. What they are comes from curses.
abbrev pub start_colors : (color_pair : ℕ → ℕ) (a_bold a_normal : ℕ) → Colors
start_colors color_pair a_bold a_normal =
    (text "K", color_pair 1)
    ∷ (text "R", color_pair 2)
    ∷ (text "B", color_pair 3)
    ∷ (text "C", color_pair 4)
    ∷ (text "G", color_pair 5)
    ∷ (text "M", color_pair 6)
    ∷ (text "W", color_pair 7)
    ∷ (text "Y", color_pair 8)
    ∷ (text "D", color_pair 9)
    ∷ (text "b", a_bold)
    ∷ (text "n", a_normal)
    ∷ []

-- `stop`
abbrev pub stop : Display → Display
stop d = record d { enabled = false }

-- what a key stands for
pub data Command : Type 0 where
  quit programs hosts legend escape resized nothing : Command

-- The tests of `_handle_cmds`; `KEY_RESIZE` is a number that curses gives to no other key.
unfoldable pub command : ℕ → ℤ → Command
command key_resize (negsuc n) = nothing
command key_resize (pos c) =
    if nat_beq c b'Q' || nat_beq c b'q'
    then quit
    else if nat_beq c b'P' || nat_beq c b'p'
    then programs
    else if nat_beq c b'H' || nat_beq c b'h'
    then hosts
    else if nat_beq c b'?'
    then legend
    else if nat_beq c 27
    then escape
    else if nat_beq c key_resize
    then resized
    else nothing

unfoldable pub run_command : Terminal → Command → Display → Result Display
unfolding show_new refresh_winsize press_escape
run_command terminal quit d = ok (stop d)
run_command terminal programs d = show_new terminal (prog_stats_layout none) d
run_command terminal hosts d = show_new terminal (host_stats_layout none) d
run_command terminal legend d = show_new terminal (key_layout none) d
run_command terminal escape d = do
  n ← attribute d.screen
  s ← at n d.store
  press_escape terminal s d
run_command terminal resized d = refresh_winsize terminal none d
run_command terminal nothing d = ok d

-- `_handle_cmds`, for a character that `getch` gives
unfoldable pub handle_cmds : ℕ → Terminal → ℤ → Display → Result Display
unfolding command run_command
handle_cmds key_resize terminal char d = run_command terminal (command key_resize char) d

-- the loop of `run_async`, for the characters that come; an exception ends it
unfoldable pub handle_each : ℕ → List (Terminal × ℤ) → Display → Result Display
unfolding handle_cmds
handle_each key_resize [] d = ok d
handle_each key_resize ((terminal, char) ∷ chars) d = elim d.enabled [
  | false ↦ ok d
  | true ↦
      unless_raised terminal.timer_raises
        (do d' ← handle_cmds key_resize terminal char d; handle_each key_resize chars d')
]
