-- ===== src/Protocol/Bytes.antt =====
-- The formats of Python's `struct` that protocol.py uses, over lists of bytes: `!H`, `!q`, `!Q`,
-- `B` and `<d`. `unpack_from` reads a format at a position and fails where too few bytes are left.
pub mod Laws
use sqlalchemy_collectd.Base.{
  ℕ, zero, suc, ◌+◌, ◌-◌, ◌*◌, ◌/◌, ◌%◌, ◌^◌, ◌<◌, ◌≤◌, ◌≡◌, Bool, ◌&&◌, Option, none, some, List,
  [], ◌∷◌, ◌++◌, map, ltb, leb, nat_beq, if◌then◌else◌, length, take, drop, ℤ, pos, negsuc, Result,
  ok, raise, struct_error, unicode_error, guard, ◌>>=◌, ◌>>◌,
}
use mathlib.Core.List.{reverse}

abbrev pub Bytes : Type 0
Bytes = List ℕ

-- A text is the list of its code points.
abbrev pub Text : Type 0
Text = List ℕ

-- The `n` low bytes of a number, lowest first.
unfoldable pub little : ℕ → ℕ → Bytes
little zero v = []
little (suc n) v = v % 256 ∷ little n (v / 256)

unfoldable pub of_little : Bytes → ℕ
of_little [] = 0
of_little (b ∷ bs) = b + 256 * of_little bs

-- Network order.
unfoldable pub big : ℕ → ℕ → Bytes
unfolding little
big n v = reverse (little n v)

unfoldable pub of_big : Bytes → ℕ
unfolding of_little
of_big bs = of_little (reverse bs)

-- The two's complement pattern of 64 bits, and the integer that a pattern stands for.
abbrev pub pattern64 : ℤ → ℕ
pattern64 (pos n) = n
pattern64 (negsuc n) = 2 ^ 64 - 1 - n

abbrev pub signed64 : ℕ → ℤ
signed64 w = if ltb w (2 ^ 63) then pos w else negsuc (2 ^ 64 - 1 - w)

abbrev pub fits_signed64 : ℤ → Bool
fits_signed64 (pos n) = ltb n (2 ^ 63)
fits_signed64 (negsuc n) = ltb n (2 ^ 63)

-- struct.pack
unfoldable pub pack_short : ℕ → Result Bytes
pack_short v = do guard (ltb v (2 ^ 16)) struct_error; ok (big 2 v)

unfoldable pub pack_header : ℕ → ℕ → Result Bytes
unfolding pack_short
pack_header type_ len_ = do a ← pack_short type_; b ← pack_short len_; ok (a ++ b)

unfoldable pub pack_long : ℤ → Result Bytes
pack_long z = do guard (fits_signed64 z) struct_error; ok (big 8 (pattern64 z))

-- struct.unpack_from: the `n` bytes at `at`
unfoldable pub bytes_at : ℕ → Bytes → ℕ → Result Bytes
bytes_at n buf at =
    let found = take n (drop at buf) in
    if nat_beq (length found) n then ok found else raise struct_error

unfoldable pub unpack_short : Bytes → ℕ → Result ℕ
unfolding bytes_at
unpack_short buf at = do bs ← bytes_at 2 buf at; ok (of_big bs)

unfoldable pub unpack_char : Bytes → ℕ → Result ℕ
unfolding bytes_at
unpack_char buf at = do bs ← bytes_at 1 buf at; ok (of_big bs)

unfoldable pub unpack_header : Bytes → Result (ℕ × ℕ)
unfolding bytes_at
unpack_header buf = do bs ← bytes_at 4 buf 0; ok (of_big (take 2 bs), of_big (drop 2 bs))

unfoldable pub unpack_long : Bytes → ℕ → Result ℤ
unfolding bytes_at
unpack_long buf at = do bs ← bytes_at 8 buf at; ok (signed64 (of_big bs))

-- `s.encode("ascii")`, `b.decode("ascii")`
abbrev pub is_ascii : List ℕ → Bool
is_ascii [] = Bool.true
is_ascii (c ∷ cs) = ltb c 128 && is_ascii cs

unfoldable pub ascii : List ℕ → Result (List ℕ)
ascii s = if is_ascii s then ok s else raise unicode_error

-- `buf[start : stop - 1]`, where `stop - 1` is negative if `stop` is 0: Python then counts from the
-- end of the buffer.
unfoldable pub slice_before : Bytes → ℕ → ℕ → Bytes
slice_before buf start zero = drop start (take (length buf - 1) buf)
slice_before buf start (suc stop) = drop start (take stop buf)
