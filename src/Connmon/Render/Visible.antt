-- ===== src/Connmon/Render/Visible.antt =====
-- connmon/display.py: what a text with known color codes shows, and where.
use sqlalchemy_collectd.Base.{
  ℕ, zero, suc, ◌-◌, ◌≡◌, refl, sym, inl, inr, true, false, Bool-cases, Option, List, [], ◌∷◌, ◌++◌,
  length, take, if◌then◌else◌, nat_eq, list_eq, ◌==◌, All, All-map, ℤ, pos, ◌+ℤ◌, ◌-ℤ◌, ltb_ℤ, ok,
}
use mathlib.Core.Path.{subst}
use mathlib.Core.List.{append-nil}
use sqlalchemy_collectd.Protocol.Bytes.{Text}
use sqlalchemy_collectd.CollectdTypes.{text}
use sqlalchemy_collectd.Connmon.Markup.{split, sub, text_width}
use sqlalchemy_collectd.Connmon.Markup.Plain.{plain_text, split-plain}
use sqlalchemy_collectd.Connmon.Render.{
  Colors, get_color, is_code, code_of, written, with_color, render_tokens, start_x, end_x,
  render_str,
}
use sqlalchemy_collectd.Connmon.Render.Attributes.{
  IsKnown, IsColor, IsMarkup, HasColor, get_color-known,
}
use sqlalchemy_collectd.Connmon.Render.Pieces.{
  Shows, room_left, fits_if, longer_if, Shows-last, Shows-more,
}

IsColor-keeps :
    (colors colors' : Colors) (c : Text)
    → ((k : ℕ) → IsKnown colors k → IsKnown colors' k)
    → IsColor colors c
    → IsColor colors' c
IsColor-keeps colors colors' [] keeps h = h
IsColor-keeps colors colors' (l ∷ ls) keeps (inl d) = inl d
IsColor-keeps colors colors' (l ∷ ls) keeps (inr h) = inr (All-map keeps (l ∷ ls) h)

IsMarkup-keeps :
    (colors colors' : Colors) (ts : List Text)
    → ((k : ℕ) → IsKnown colors k → IsKnown colors' k)
    → IsMarkup colors ts
    → IsMarkup colors' ts
IsMarkup-keeps colors colors' [] keeps h = tt
IsMarkup-keeps colors colors' (t ∷ []) keeps h = h
IsMarkup-keeps colors colors' (t ∷ code ∷ ts) keeps h = (
  h.0,
  h.1,
  IsColor-keeps colors colors' (code_of code) keeps h.2,
  IsMarkup-keeps colors colors' ts keeps h.3,
)

module _ (y : ℕ) (m : ℤ) (default : ℕ) where
  render_tokens-plain :
      (t : Text) (ts : List Text) (x : ℤ) (n current : ℕ) (colors : Colors)
      → m -ℤ x ≡ pos n
      → is_code t ≡ false
      → render_tokens y m default (t ∷ ts) x current colors
        ≡ written
            (record { y = y; x = x; str = take n t; color = current })
            (if ltb_ℤ m (x +ℤ pos (length t))
              then record { colors = colors; writes = []; result = ok tt }
              else render_tokens y m default ts (x +ℤ pos (length t)) current colors)
  unfolding render_tokens
  render_tokens-plain t ts x n current colors room plain = rw (plain, room) refl

  -- the first text, where the rest is shown if there is room for it
  Shows-plain :
      (t u : Text) (ts : List Text) (x : ℤ) (n current : ℕ) (colors : Colors)
      → m -ℤ x ≡ pos n
      → is_code t ≡ false
      → ((k : ℕ)
          → m -ℤ (x +ℤ pos (length t)) ≡ pos k
          → Shows
              (x +ℤ pos (length t))
              m
              (take k u)
              (render_tokens y m default ts (x +ℤ pos (length t)) current colors))
      → Shows x m (take n (t ++ u)) (render_tokens y m default (t ∷ ts) x current colors)
  Shows-plain t u ts x n current colors room plain rest =
      subst (Shows x m (take n (t ++ u)))
        (sym (render_tokens-plain t ts x n current colors room plain))
        (elim (Bool-cases (ltb_ℤ m (x +ℤ pos (length t)))) [
          | inl long ↦
              rw long
                (Shows-last m x n room y current t u colors (longer_if m x n room (length t) long))
          | inr short ↦
              let fits = fits_if m x n room (length t) short in
              rw short (
                Shows-more m x n room y current t u
                  (render_tokens y m default ts (x +ℤ pos (length t)) current colors) fits
                  (rest (n - length t) (room_left m x n room (length t) fits)))
        ])

  -- a code, where the rest is shown in any color
  Shows-code :
      (code : Text) (ts : List Text) (x : ℤ) (current : ℕ) (colors : Colors) (u : Text)
      → is_code code ≡ true
      → IsColor colors (code_of code)
      → ((a : ℕ) (colors' : Colors)
          → ((k : ℕ) → IsKnown colors k → IsKnown colors' k)
          → Shows x m u (render_tokens y m default ts x a colors'))
      → Shows x m u (render_tokens y m default (code ∷ ts) x current colors)
  unfolding render_tokens
  Shows-code code ts x current colors u is_one color rest =
      rw is_one (elim (Bool-cases (code_of code == text "d")) [
        | inl d ↦ rw d (rest default colors (λ k h. h))
        | inr other ↦ rw other (known (code_of code) color other)
      ])
    where
      known :
          (c : Text)
          → IsColor colors c
          → (c == text "d") ≡ false
          → Shows x m u (
              with_color
                (get_color colors c)
                (λ colors' a. render_tokens y m default ts x a colors'))
      known [] h o = absurd h
      known (l ∷ ls) (inl d) o = cc
      known (l ∷ ls) (inr letters) o =
          let (colors', a, e, keeps) = get_color-known colors l ls letters in
          subst
            (λ p.
              Shows x m u (with_color p (λ colors' a. render_tokens y m default ts x a colors')))
            (sym e) (rest a colors' keeps)

  Shows-nothing :
      (x : ℤ) (n : ℕ) (current : ℕ) (colors : Colors)
      → Shows x m (take n []) (render_tokens y m default [] x current colors)
  unfolding render_tokens
  Shows-nothing x zero current colors = record {
    returns = refl;
    visible = refl;
    contiguous = tt;
    inside = tt;
  }
  Shows-nothing x (suc n) current colors = record {
    returns = refl;
    visible = refl;
    contiguous = tt;
    inside = tt;
  }

  render_tokens-Shows :
      (ts : List Text) (x : ℤ) (n current : ℕ) (colors : Colors)
      → m -ℤ x ≡ pos n
      → IsMarkup colors ts
      → Shows x m (take n (plain_text ts)) (render_tokens y m default ts x current colors)
  render_tokens-Shows [] x n current colors room h = Shows-nothing x n current colors
  render_tokens-Shows (t ∷ []) x n current colors room h =
      subst (λ u. Shows x m (take n u) (render_tokens y m default (t ∷ []) x current colors))
        (append-nil t)
        (Shows-plain t [] [] x n current colors room h
          (λ k room'. Shows-nothing (x +ℤ pos (length t)) k current colors))
  render_tokens-Shows (t ∷ code ∷ ts) x n current colors room h =
      Shows-plain t (plain_text ts) (code ∷ ts) x n current colors room h.0 (λ k room'.
        Shows-code code ts (x +ℤ pos (length t)) current colors (take k (plain_text ts)) h.1 h.2
          (λ a colors' keeps.
            render_tokens-Shows ts (x +ℤ pos (length t)) k a colors' room'
              (IsMarkup-keeps colors colors' ts keeps h.3)))

-- the color of a whole text
render_str-with :
    (columns y : ℕ) (x : ℤ) (t default_color : Text) (max center : Option ℕ) (colors : Colors)
    (known : HasColor colors default_color)
    → render_str columns y x t default_color max center colors
      ≡ render_tokens y
          (end_x columns max (start_x columns x center (text_width t)))
          known.1
          (split t)
          (start_x columns x center (text_width t))
          known.1
          known.0
unfolding render_str
render_str-with columns y x t default_color max center colors (colors', a, e, keeps) = rw e refl

-- `_render_str` writes the text without its codes, cut off where the space ends: without a gap from
-- the first column on and nowhere past the end, where the codes are of known letters, no other text
-- begins with `#`, the default color has known letters, and the text starts before the end.
pub render_str-Shows :
    (columns y : ℕ) (x : ℤ) (t : Text) (l : ℕ) (ls : Text) (max center : Option ℕ) (colors : Colors)
    (n : ℕ)
    → All (IsKnown colors) (l ∷ ls)
    → IsMarkup colors (split t)
    → end_x columns max (start_x columns x center (text_width t))
        -ℤ start_x columns x center (text_width t)
      ≡ pos n
    → Shows
        (start_x columns x center (text_width t))
        (end_x columns max (start_x columns x center (text_width t)))
        (take n (sub t))
        (render_str columns y x t (l ∷ ls) max center colors)
render_str-Shows columns y x t l ls max center colors n default markup room =
    let known = get_color-known colors l ls default in
    let x' = start_x columns x center (text_width t) in
    rw (render_str-with columns y x t (l ∷ ls) max center colors known) (
      subst
        (λ u.
          Shows x' (end_x columns max x') (take n u)
            (render_tokens y (end_x columns max x') known.1 (split t) x' known.1 known.0))
        (split-plain t)
        (render_tokens-Shows y (end_x columns max x') known.1 (split t) x' n known.1 known.0 room
          (IsMarkup-keeps colors known.0 (split t) known.3 markup)))
