-- ===== src/Connmon/Render/Pieces.antt =====
-- connmon/display.py: pieces of a text, written one behind the other.
use sqlalchemy_collectd.Base.{
  ℕ, zero, suc, ◌-◌, ◌≤◌, ◌≡◌, refl, sym, ap, ◌∙◌, true, false, List, [], ◌∷◌, ◌++◌, length, take,
  nat_eq, list_eq, All, ℤ, pos, ◌+ℤ◌, ◌-ℤ◌, ◌≤ℤ◌, ltb_ℤ, -ℤ_parts, +ℤ_parts, eq_of_parts, ok, arith,
}
use mathlib.Core.Path.{subst}
use mathlib.Core.List.{append-nil}
use sqlalchemy_collectd.Protocol.Bytes.{Text}
use sqlalchemy_collectd.Connmon.Render.{Colors, Write, Rendered, written}

abbrev pub text_of : List Write → Text
text_of [] = []
text_of (w ∷ ws) = w.str ++ text_of ws

-- Each write begins where the one before ends.
abbrev pub AreContiguous : ℤ → List Write → Type 0
AreContiguous x [] = Unit {0}
AreContiguous x (w ∷ ws) = (w.x ≡ x) × AreContiguous (x +ℤ pos (length w.str)) ws

-- The text is written from `x` on, without a gap and nowhere past `max_x`, and nothing is raised.
pub record Shows (x max_x : ℤ) (t : Text) (r : Rendered) : Type 0 where
  pub returns : r.result ≡ ok tt
  pub visible : text_of r.writes ≡ t
  pub contiguous : AreContiguous x r.writes
  pub inside : All (λ w. w.x +ℤ pos (length w.str) ≤ℤ max_x) r.writes

take-all : (n : ℕ) (t : Text) → length t ≤ n → take n t ≡ t
take-all zero [] h = refl
take-all zero (c ∷ cs) h = absurd (omega arith)
take-all (suc n) [] h = refl
take-all (suc n) (c ∷ cs) h = ap (◌∷◌ c) (take-all n cs (omega arith))

take-append_long :
    (n : ℕ) (t u : Text) → length t ≤ n → take n (t ++ u) ≡ t ++ take (n - length t) u
take-append_long n [] u h = ap (λ k. take k u) (omega arith)
take-append_long zero (c ∷ cs) u h = absurd (omega arith)
take-append_long (suc n) (c ∷ cs) u h = ap (◌∷◌ c) (
    take-append_long n cs u (omega arith)
    ∙ ap (λ k. cs ++ take k u) {x = n - length cs} (omega arith))

take-append_short : (n : ℕ) (t u : Text) → n ≤ length t → take n (t ++ u) ≡ take n t
take-append_short zero t u h = refl
take-append_short (suc n) [] u h = absurd (omega arith)
take-append_short (suc n) (c ∷ cs) u h = ap (◌∷◌ c) (take-append_short n cs u (omega arith))

length-take : (n : ℕ) (t : Text) → length (take n t) ≤ n
length-take zero t = omega arith
length-take (suc n) [] = omega arith
length-take (suc n) (c ∷ cs) = omega (arith, length-take n cs)

module _ (m x : ℤ) (n : ℕ) (room : m -ℤ x ≡ pos n) where
  pub inside_room : (k : ℕ) → k ≤ n → x +ℤ pos k ≤ℤ m
  inside_room k h = ground (arith, -ℤ_parts m x, +ℤ_parts x (pos k), room)

  pub room_left : (k : ℕ) → k ≤ n → m -ℤ (x +ℤ pos k) ≡ pos (n - k)
  room_left k h =
      eq_of_parts (m -ℤ (x +ℤ pos k)) (pos (n - k))
        (ground (arith, -ℤ_parts m x, +ℤ_parts x (pos k), -ℤ_parts m (x +ℤ pos k), room))

  pub fits_if : (k : ℕ) → ltb_ℤ m (x +ℤ pos k) ≡ false → k ≤ n
  fits_if k h = ground (arith, -ℤ_parts m x, +ℤ_parts x (pos k), room)

  pub longer_if : (k : ℕ) → ltb_ℤ m (x +ℤ pos k) ≡ true → n ≤ k
  longer_if k h = ground (arith, -ℤ_parts m x, +ℤ_parts x (pos k), room)

  abbrev first_write : ℕ → Text → ℕ → Write
  first_write y t color = record { y = y; x = x; str = take n t; color = color }

  pub Shows-last :
      (y color : ℕ) (t u : Text) (colors : Colors)
      → n ≤ length t
      → Shows x m (take n (t ++ u)) (
          written (first_write y t color) (record { colors = colors; writes = []; result = ok tt }))
  Shows-last y color t u colors h = record {
    returns = refl;
    visible = append-nil (take n t) ∙ sym (take-append_short n t u h);
    contiguous = (refl, tt);
    inside = (inside_room (length (take n t)) (length-take n t), tt);
  }

  pub Shows-more :
      (y color : ℕ) (t u : Text) (r : Rendered)
      → length t ≤ n
      → Shows (x +ℤ pos (length t)) m (take (n - length t) u) r
      → Shows x m (take n (t ++ u)) (written (first_write y t color) r)
  Shows-more y color t u r h s = record {
    returns = s.returns;
    visible =
        ap (λ v. v ++ text_of r.writes) (take-all n t h)
        ∙ ap (λ v. t ++ v) s.visible
        ∙ sym (take-append_long n t u h);
    contiguous = (
      refl,
      subst (λ v. AreContiguous (x +ℤ pos (length v)) r.writes) (sym (take-all n t h)) s.contiguous,
    );
    inside = (inside_room (length (take n t)) (length-take n t), s.inside);
  }
