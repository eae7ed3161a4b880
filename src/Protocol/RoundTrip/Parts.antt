-- ===== src/Protocol/RoundTrip/Parts.antt =====
-- One part of a message: what a packer wrote is what the receiver reads, whatever follows.
use sqlalchemy_collectd.Base.{
  ℕ, suc, ◌+◌, ◌^◌, ◌<◌, ◌≡◌, true, Option, [], ◌∷◌, ◌++◌, length, drop, length-append, take-append,
  drop-append, ℤ, ok, >>=-eq-ok, arith,
}
use mathlib.Core.List.{append_assoc}
use sqlalchemy_collectd.Protocol.Bytes.{
  Bytes, Text, big, pattern64, fits_signed64, pack_short, pack_header, pack_long, unpack_header,
  unpack_long, is_ascii, ascii, slice_before,
}
use sqlalchemy_collectd.Protocol.Bytes.Laws.{length-big, unpack_header-big, unpack_long-big}
use sqlalchemy_collectd.Protocol.Packer.{or_empty, pack_string, pack_integer}
use sqlalchemy_collectd.Protocol.Unpacker.{header_size, Parts, receive, unpack_string, unpack_loop}

-- The bytes of a part: its kind, its length and its body.
pub record IsPart (kind size : ℕ) (part body : Bytes) : Type 0 where
  pub shape : part ≡ big 2 kind ++ (big 2 size ++ body)
  pub kind_fits : kind < 2 ^ 16
  pub size_fits : size < 2 ^ 16
  pub size_counts : length body + 4 ≡ size

pub pack_short-eq-ok : (v : ℕ) {bs : Bytes} → pack_short v ≡ ok bs → (bs ≡ big 2 v) × (v < 2 ^ 16)
unfolding pack_short
pack_short-eq-ok v h = ground arith

pub pack_header-eq-ok :
    (a b : ℕ) {bs : Bytes}
    → pack_header a b ≡ ok bs
    → (bs ≡ big 2 a ++ big 2 b) × (a < 2 ^ 16) × (b < 2 ^ 16)
unfolding pack_header
pack_header-eq-ok a b h = ground arith

pub pack_long-eq-ok :
    (z : ℤ) {bs : Bytes}
    → pack_long z ≡ ok bs
    → (bs ≡ big 8 (pattern64 z)) × (fits_signed64 z ≡ true)
unfolding pack_long
pack_long-eq-ok z h = ground arith

ascii-eq-ok : (s : Text) {t : Text} → ascii s ≡ ok t → (t ≡ s) × (is_ascii s ≡ true)
unfolding ascii
ascii-eq-ok s h = ground arith

module _ {kind size : ℕ} {part body : Bytes} (h : IsPart kind size part body) (rest : Bytes) where
  -- the buffer behind the header
  pub IsPart-behind : part ++ rest ≡ (big 2 kind ++ big 2 size) ++ (body ++ rest)
  IsPart-behind = rw h.shape (simp append_assoc)

  pub length-header : length (big 2 kind ++ big 2 size) ≡ 4
  length-header =
      omega (arith, length-append (big 2 kind) (big 2 size), length-big 2 kind, length-big 2 size)

  pub IsPart-header : unpack_header (part ++ rest) ≡ ok (kind, size)
  IsPart-header =
      rw IsPart-behind
        (rw append_assoc (unpack_header-big kind size (body ++ rest) h.kind_fits h.size_fits))

  pub IsPart-length : length part ≡ size
  IsPart-length = rw h.shape (
      omega (
        arith,
        length-append (big 2 kind) (big 2 size ++ body),
        length-append (big 2 size) body,
        length-big 2 kind,
        length-big 2 size,
        h.size_counts,
      ))

  pub IsPart-drop : drop size (part ++ rest) ≡ rest
  IsPart-drop = drop-append size part rest IsPart-length

-- A text is packed as a part of its length, and is ASCII.
pub IsPart-pack_string :
    (kind : ℕ) (value : Option Text) {part : Bytes}
    → pack_string kind value ≡ ok part
    → IsPart kind (5 + length (or_empty value)) part (or_empty value ++ (0 ∷ []))
      × (is_ascii (or_empty value) ≡ true)
unfolding pack_string
IsPart-pack_string kind value h =
    let (head, packed, rest) = >>=-eq-ok (pack_header kind (5 + length (or_empty value))) _ h in
    let (body, read, done) = >>=-eq-ok (ascii (or_empty value)) _ rest in
    let (shape, kind_fits, size_fits) = pack_header-eq-ok kind _ packed in
    let (same, is) = ascii-eq-ok (or_empty value) read in
    (
      record {
        shape = ground (
          arith,
          append_assoc (big 2 kind) (big 2 (5 + length (or_empty value)))
              (or_empty value ++ (0 ∷ [])),
        );
        kind_fits = kind_fits;
        size_fits = size_fits;
        size_counts = omega (arith, length-append (or_empty value) (0 ∷ []));
      },
      is,
    )

slice_before-text :
    (front s rest : Bytes)
    → length front ≡ 4
    → slice_before (front ++ ((s ++ (0 ∷ [])) ++ rest)) 4 (5 + length s) ≡ s
unfolding slice_before
slice_before-text front s rest h = rw (add_five (length s)) (
    rw (append_assoc s (0 ∷ []) rest, ← append_assoc front s ((0 ∷ []) ++ rest))
      (rw
        (take-append (4 + length s) (front ++ s) ((0 ∷ []) ++ rest)
          (omega (arith, length-append front s)))
        (drop-append 4 front s h)))
  where
    add_five : (n : ℕ) → 5 + n ≡ suc (4 + n)
    add_five n = omega arith

pub unpack_string-part :
    (kind : ℕ) (s : Text) {part : Bytes} (rest : Bytes)
    → IsPart kind (5 + length s) part (s ++ (0 ∷ []))
    → is_ascii s ≡ true
    → unpack_string (5 + length s) (part ++ rest) ≡ ok s
unfolding unpack_string ascii
unpack_string-part kind s {part} rest h is = rw (IsPart-behind h rest) (
    rw (slice_before-text (big 2 kind ++ big 2 (5 + length s)) s rest (length-header h rest))
      (rw is))

pub IsPart-pack_integer :
    (kind : ℕ) (z : ℤ) {part : Bytes}
    → pack_integer kind z ≡ ok part
    → IsPart kind 12 part (big 8 (pattern64 z)) × (fits_signed64 z ≡ true)
unfolding pack_integer
IsPart-pack_integer kind z h =
    let (head, packed, rest) = >>=-eq-ok (pack_header kind 12) _ h in
    let (body, written, done) = >>=-eq-ok (pack_long z) _ rest in
    let (shape, kind_fits, size_fits) = pack_header-eq-ok kind 12 packed in
    let (same, fits) = pack_long-eq-ok z written in
    (
      record {
        shape = ground (arith, append_assoc (big 2 kind) (big 2 12) (big 8 (pattern64 z)));
        kind_fits = kind_fits;
        size_fits = size_fits;
        size_counts = omega (arith, length-big 8 (pattern64 z));
      },
      fits,
    )

pub unpack_long-part :
    (kind : ℕ) (z : ℤ) {part : Bytes} (rest : Bytes)
    → IsPart kind 12 part (big 8 (pattern64 z))
    → fits_signed64 z ≡ true
    → unpack_long (part ++ rest) header_size ≡ ok z
unpack_long-part kind z rest h fits =
    rw (IsPart-behind h rest)
      (unpack_long-big z 4 (big 2 kind ++ big 2 12) rest fits (length-header h rest))

-- One round of the loop over a part that its receiver accepts.
pub unpack_loop-part :
    (fuel : ℕ) {kind size : ℕ} {part body : Bytes} (rest : Bytes) (r : Parts) {r' : Parts}
    → IsPart kind size part body
    → receive kind size (part ++ rest) r ≡ ok r'
    → unpack_loop (suc fuel) (part ++ rest) r ≡ unpack_loop fuel rest r'
unpack_loop-part fuel {kind} {size} {part} rest r {r'} h accepted =
    round (part ++ rest) (IsPart-header h rest) accepted (IsPart-drop h rest)
  where
    round :
        (buf : Bytes)
        → unpack_header buf ≡ ok (kind, size)
        → receive kind size buf r ≡ ok r'
        → drop size buf ≡ rest
        → unpack_loop (suc fuel) buf r ≡ unpack_loop fuel rest r'
    round [] head acc left = unfold unpack_header in cc
    round (b ∷ bs) head acc left = unfold unpack_loop in rw head (rw acc (rw left))
