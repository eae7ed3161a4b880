-- ===== src/Protocol/Bytes/Laws.antt =====
-- Reading what was packed, with anything behind it.
use sqlalchemy_collectd.Base.{
  ℕ, zero, suc, ◌/◌, ◌^◌, ◌<◌, ◌≡◌, refl, ap, ◌∙◌, true, [], ◌∷◌, ◌++◌, length, length-append,
  take-append, drop-append, length-reverse, ℤ, pos, negsuc, ok, arith,
}
use mathlib.Core.List.{reverse-reverse, append_assoc}
use sqlalchemy_collectd.Protocol.Bytes.{
  Bytes, little, of_little, big, of_big, pattern64, signed64, fits_signed64, bytes_at, unpack_short,
  unpack_char, unpack_header, unpack_long,
}

pub length-little : (n v : ℕ) → length (little n v) ≡ n
unfolding little
length-little zero v = refl
length-little (suc n) v = ap suc (length-little n (v / 256))

pub length-big : (n v : ℕ) → length (big n v) ≡ n
unfolding big
length-big n v = length-reverse (little n v) ∙ length-little n v

pub of_little-little : (n v : ℕ) → v < 256 ^ n → of_little (little n v) ≡ v
unfolding little of_little
of_little-little zero v h = omega arith
of_little-little (suc n) v h = omega (arith, of_little-little n (v / 256) (omega arith))

pub of_big-big : (n v : ℕ) → v < 256 ^ n → of_big (big n v) ≡ v
unfolding big of_big
of_big-big n v h = rw reverse-reverse (of_little-little n v h)

-- Two halves of a buffer: the read is of the second one's front.
pub bytes_at-append :
    (n at : ℕ) (front bs rest : Bytes)
    → length front ≡ at
    → length bs ≡ n
    → bytes_at n (front ++ (bs ++ rest)) at ≡ ok bs
unfolding bytes_at
bytes_at-append n at front bs rest hf hb =
    rw (drop-append at front (bs ++ rest) hf, take-append n bs rest hb) (ground arith)

pub unpack_short-big :
    (v at : ℕ) (front rest : Bytes)
    → v < 2 ^ 16
    → length front ≡ at
    → unpack_short (front ++ (big 2 v ++ rest)) at ≡ ok v
unfolding unpack_short
unpack_short-big v at front rest h hf =
    rw (bytes_at-append 2 at front (big 2 v) rest hf (length-big 2 v)) (ap ok (of_big-big 2 v h))

pub unpack_char_self :
    (c at : ℕ) (front rest : Bytes)
    → length front ≡ at
    → unpack_char (front ++ (c ∷ rest)) at ≡ ok c
unfolding unpack_char of_big of_little
unpack_char_self c at front rest hf =
    rw (bytes_at-append 1 at front (c ∷ []) rest hf refl) (ap ok (omega arith))

pub unpack_header-big :
    (t l : ℕ) (rest : Bytes)
    → t < 2 ^ 16
    → l < 2 ^ 16
    → unpack_header (big 2 t ++ (big 2 l ++ rest)) ≡ ok (t, l)
unfolding unpack_header
unpack_header-big t l rest ht hl = rw (← append_assoc (big 2 t) (big 2 l) rest) (
    rw (bytes_at-append 4 0 [] (big 2 t ++ big 2 l) rest refl (header_size t l)) (
      rw (take-append 2 (big 2 t) (big 2 l) (length-big 2 t)) (
        rw (drop-append 2 (big 2 t) (big 2 l) (length-big 2 t))
          (rw (of_big-big 2 t ht, of_big-big 2 l hl)))))
  where
    header_size : (t l : ℕ) → length (big 2 t ++ big 2 l) ≡ 4
    header_size t l =
        omega (arith, length-append (big 2 t) (big 2 l), length-big 2 t, length-big 2 l)

signed64-pattern64 : (z : ℤ) → fits_signed64 z ≡ true → signed64 (pattern64 z) ≡ z
signed64-pattern64 (pos n) h = ground arith
signed64-pattern64 (negsuc n) h = ground arith

pattern64-lt : (z : ℤ) → fits_signed64 z ≡ true → pattern64 z < 256 ^ 8
pattern64-lt (pos n) h = ground arith
pattern64-lt (negsuc n) h = ground arith

pub unpack_long-big :
    (z : ℤ) (at : ℕ) (front rest : Bytes)
    → fits_signed64 z ≡ true
    → length front ≡ at
    → unpack_long (front ++ (big 8 (pattern64 z) ++ rest)) at ≡ ok z
unfolding unpack_long
unpack_long-big z at front rest h hf =
    rw (bytes_at-append 8 at front (big 8 (pattern64 z)) rest hf (length-big 8 (pattern64 z)))
      (rw (of_big-big 8 (pattern64 z) (pattern64-lt z h)) (ap ok (signed64-pattern64 z h)))
