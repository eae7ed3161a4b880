-- ===== src/Connmon/Display/Commands.antt =====
-- connmon/display.py: what the commands leave in place.
use sqlalchemy_collectd.Base.{
  ℕ, ◌<◌, ◌≡◌, refl, sym, ap, ◌∙◌, inl, inr, Bool, false, Bool-cases, Option, none, some, Error,
  map, List, [], ◌∷◌, ◌++◌, length, All, All-map, All-append, length-append, ℤ, Result, ok, ◌>>=◌,
  arith, beq-eq, pair_eq, nat_eq,
}
use mathlib.Core.Path.{subst}
use sqlalchemy_collectd.Connmon.Layout.{program_columns, calc_x_positions}
use sqlalchemy_collectd.Connmon.Display.{
  attribute, Screen, prog_stats_layout, host_stats_layout, key_layout, Size, Display, Terminal, at,
  put_at, resize, set_screen, unless_raised, resize_screen, is_new_size, refresh_winsize, show_new,
  press_escape, start_impl, stop, Command, quit, programs, hosts, legend, escape, resized, nothing,
  command, run_command, handle_cmds, handle_each,
}
use sqlalchemy_collectd.Connmon.Display.Store.{
  at-put_at, length-put_at, All-put_at, at-All, at-lt, at_cases, at-last, put_at-last,
}
use sqlalchemy_collectd.Connmon.Display.Sound.{
  refresh_winsize-displayed, displayed, IsClosed, IsSound, resize-IsCurrent, resize-IsClosed,
  IsClosed-more, shown_by, pre_display-shown_by, shown_by-IsClosed, ReturnsSound, EndsSound,
  unless_raised-EndsSound,
}

refresh_winsize-EndsSound :
    (terminal : Terminal) (n m : ℕ) (d : Display) (s : Screen)
    → at n d.store ≡ ok s
    → d.screen ≡ some m
    → m < length d.store
    → ((k : ℕ)
        → k ≡ length d.store
        → (t : Screen) → IsClosed k t
        → All (IsClosed k) (put_at n t d.store))
    → EndsSound (terminal ∷ []) (refresh_winsize terminal (some n) d)
refresh_winsize-EndsSound terminal n m d s found shown inside others =
    subst (EndsSound (terminal ∷ []))
      (sym (
        refresh_winsize-displayed terminal n d s (shown_by s m) found
          (rw shown (pre_display-shown_by s m))))
      (unless_raised-EndsSound terminal terminal.render_raises _ (λ e h. inl (inr h))
        (
          displayed terminal n (shown_by s m) d,
          refl,
          record {
            n = n;
            s = resize (shown_by s m) terminal.getmaxyx;
            size = terminal.getmaxyx;
            shown = refl;
            found = at-put_at n d.store s (resize (shown_by s m) terminal.getmaxyx) found;
            sized = refl;
            current = resize-IsCurrent (shown_by s m) terminal.getmaxyx;
            closed =
                others (length (put_at n (resize (shown_by s m) terminal.getmaxyx) d.store))
                  (length-put_at n (resize (shown_by s m) terminal.getmaxyx) d.store)
                  (resize (shown_by s m) terminal.getmaxyx)
                  (resize-IsClosed (shown_by s m) terminal.getmaxyx _ (
                    shown_by-IsClosed s m _ (
                      omega (
                        arith,
                        length-put_at n (resize (shown_by s m) terminal.getmaxyx) d.store,
                      ))));
          },
        ))

show_new-EndsSound :
    (terminal : Terminal) (s : Screen) (d : Display)
    → IsSound d
    → EndsSound (terminal ∷ []) (show_new terminal s d)
unfolding show_new
show_new-EndsSound terminal s d h =
    refresh_winsize-EndsSound terminal (length d.store) h.n (record d { store = d.store ++ s ∷ [] })
      s (at-last d.store s) h.shown
      (omega (arith, at-lt h.n d.store h.found, length-append d.store (s ∷ [])))
      (λ k e t closed. rw (put_at-last d.store s t) (
        All-append (IsClosed k) d.store (t ∷ [])
          (All-map
            (λ u.
              IsClosed-more u (length d.store) k (omega (arith, length-append d.store (s ∷ []))))
            d.store h.closed)
          (closed, tt)))

press_escape-EndsSound :
    (terminal : Terminal) (n : ℕ) (s : Screen) (d : Display)
    → IsSound d
    → at n d.store ≡ ok s
    → EndsSound (terminal ∷ []) (press_escape terminal s d)
unfolding press_escape
press_escape-EndsSound terminal n (prog_stats_layout places) d h found = inl (d, refl, h)
press_escape-EndsSound terminal n (host_stats_layout places) d h found = inl (d, refl, h)
press_escape-EndsSound terminal n (key_layout none) d h found =
    absurd (at-All (IsClosed (length d.store)) n d.store found h.closed)
press_escape-EndsSound terminal n (key_layout (some p)) d h found =
    let inside = at-All (IsClosed (length d.store)) n d.store found h.closed in
    let (s, e) = at_cases p d.store inside in
    refresh_winsize-EndsSound terminal p h.n d s e h.shown (at-lt h.n d.store h.found)
      (λ k q t closed.
        All-put_at (IsClosed k) p t d.store closed
          (All-map (λ u. IsClosed-more u (length d.store) k (omega arith)) d.store h.closed))

resize_screen-at :
    (size : Size) (n : ℕ) (s : Screen) (d : Display)
    → d.screen ≡ some n
    → at n d.store ≡ ok s
    → resize_screen size d ≡ ok (record d { store = put_at n (resize s size) d.store })
unfolding resize_screen
resize_screen-at size n s d shown found =
    let next : ℕ → Screen → Result Display =
      λ k t. ok (record d { store = put_at k (resize t size) d.store }) in
    ap (λ o. attribute o >>= (λ k. at k d.store >>= next k)) shown ∙ ap (λ r. r >>= next n) found

pub escape-at :
    (terminal : Terminal) (n : ℕ) (s : Screen) (d : Display)
    → d.screen ≡ some n
    → at n d.store ≡ ok s
    → run_command terminal escape d ≡ press_escape terminal s d
unfolding run_command
escape-at terminal n s d shown found =
    let next : Screen → Result Display = λ t. press_escape terminal t d in
    ap (λ o. attribute o >>= (λ k. at k d.store >>= next)) shown ∙ ap (λ r. r >>= next) found

same_size : (a b : Size) (r : Bool) → is_new_size (some a) b r ≡ false → some b ≡ some a
same_size a b r h = ap some (sym (beq-eq a b (ground arith)))

resized-ReturnsSound :
    (terminal : Terminal) (d : Display) → IsSound d → ReturnsSound (refresh_winsize terminal none d)
unfolding refresh_winsize
resized-ReturnsSound terminal d h =
    let size = terminal.getmaxyx in
    rw h.sized (elim (Bool-cases (is_new_size (some h.size) size terminal.is_term_resized)) [
      | inl new ↦ rw new (
        _,
        resize_screen-at size h.n h.s (record d { winsize = some size }) h.shown h.found,
        record {
          n = h.n;
          s = resize h.s size;
          size = size;
          shown = h.shown;
          found = at-put_at h.n d.store h.s (resize h.s size) h.found;
          sized = refl;
          current = resize-IsCurrent h.s size;
          closed =
              subst (λ k. All (IsClosed k) (put_at h.n (resize h.s size) d.store))
                (sym (length-put_at h.n (resize h.s size) d.store))
                (All-put_at (IsClosed (length d.store)) h.n (resize h.s size) d.store
                  (resize-IsClosed h.s size (length d.store)
                    (at-All (IsClosed (length d.store)) h.n d.store h.found h.closed))
                  h.closed);
        },
      )
      | inr same ↦ rw same (
        _,
        refl,
        record {
          n = h.n;
          s = h.s;
          size = h.size;
          shown = h.shown;
          found = h.found;
          sized = same_size h.size size terminal.is_term_resized same;
          current = h.current;
          closed = h.closed;
        },
      )
    ])

run_command-EndsSound :
    (terminal : Terminal) (c : Command) (d : Display)
    → IsSound d
    → EndsSound (terminal ∷ []) (run_command terminal c d)
unfolding run_command
run_command-EndsSound terminal quit d h = inl (
  stop d,
  refl,
  record {
    n = h.n;
    s = h.s;
    size = h.size;
    shown = h.shown;
    found = h.found;
    sized = h.sized;
    current = h.current;
    closed = h.closed;
  },
)
run_command-EndsSound terminal programs d h =
    show_new-EndsSound terminal (prog_stats_layout none) d h
run_command-EndsSound terminal hosts d h = show_new-EndsSound terminal (host_stats_layout none) d h
run_command-EndsSound terminal legend d h = show_new-EndsSound terminal (key_layout none) d h
run_command-EndsSound terminal escape d h =
    subst (EndsSound (terminal ∷ [])) (sym (escape-at terminal h.n h.s d h.shown h.found))
      (press_escape-EndsSound terminal h.n h.s d h h.found)
run_command-EndsSound terminal resized d h = inl (resized-ReturnsSound terminal d h)
run_command-EndsSound terminal nothing d h = inl (d, refl, h)

start_impl-EndsSound : (terminal : Terminal) → EndsSound (terminal ∷ []) (start_impl terminal)
unfolding start_impl show_new refresh_winsize set_screen resize_screen at put_at
start_impl-EndsSound terminal =
    unless_raised-EndsSound terminal terminal.render_raises _ (λ e h. inl (inr h))
      (
        _,
        refl,
        record {
          n = 0;
          s = prog_stats_layout (some (calc_x_positions terminal.getmaxyx.1 program_columns));
          size = terminal.getmaxyx;
          shown = refl;
          found = refl;
          sized = refl;
          current = refl;
          closed = (tt, tt);
        },
      )

-- a call, and what follows if it returns
then-EndsSound :
    (t : Terminal) (ts : List Terminal) (r : Result Display) (f : Display → Result Display)
    → EndsSound (t ∷ []) r
    → ((d : Display) → IsSound d → EndsSound ts (f d))
    → EndsSound (t ∷ ts) (r >>= f)
then-EndsSound t ts r f (inr (e, inl here, raised)) next = inr (e, inl here, rw raised refl)
then-EndsSound t ts r f (inr (e, inr x, raised)) next = absurd x
then-EndsSound t ts r f (inl (d, returned, sound)) next = rw returned (wider (next d sound))
  where
    wider : EndsSound ts (f d) → EndsSound (t ∷ ts) (f d)
    wider (inl h) = inl h
    wider (inr (e, there, raised)) = inr (e, inr there, raised)

handle_each-EndsSound :
    (key_resize : ℕ) (chars : List (Terminal × ℤ)) (d : Display)
    → IsSound d
    → EndsSound (map (λ c. c.0) chars) (handle_each key_resize chars d)
unfolding handle_each handle_cmds
handle_each-EndsSound key_resize [] d h = inl (d, refl, h)
handle_each-EndsSound key_resize ((terminal, char) ∷ chars) d h = elim (Bool-cases d.enabled) [
  | inl on ↦
      rw (handle_each, on)
        (timer terminal.timer_raises refl (
          then-EndsSound terminal (map (λ c. c.0) chars) (handle_cmds key_resize terminal char d)
            (handle_each key_resize chars)
            (run_command-EndsSound terminal (command key_resize char) d h)
            (handle_each-EndsSound key_resize chars)))
  | inr off ↦ rw (handle_each, off) (inl (d, refl, h))
]
  where
    timer :
        (o : Option Error) {r : Result Display}
        → terminal.timer_raises ≡ o
        → EndsSound (terminal ∷ map (λ c. c.0) chars) r
        → EndsSound (terminal ∷ map (λ c. c.0) chars) (unless_raised o r)
    timer none q ends = ends
    timer (some e) q ends = inr (e, inl (inl q), refl)

-- After `_start_impl` and whatever characters come, at whatever sizes of the window: a screen is shown
-- whose columns are those for the size that is known, and every legend has a screen to go back to; or
-- a call of `_render` has raised, and its exception has ended the session.
pub session-EndsSound :
    (key_resize : ℕ) (first : Terminal) (chars : List (Terminal × ℤ))
    → EndsSound (first ∷ map (λ c. c.0) chars) (start_impl first >>= handle_each key_resize chars)
session-EndsSound key_resize first chars =
    then-EndsSound first (map (λ c. c.0) chars) (start_impl first) (handle_each key_resize chars)
      (start_impl-EndsSound first) (handle_each-EndsSound key_resize chars)
