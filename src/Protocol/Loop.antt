-- ===== src/Protocol/Loop.antt =====
-- When the loop of `_unpack_packet` ends. Its step is the length that the packet claims for a part,
-- so a part that claims no length is read for ever.
use sqlalchemy_collectd.Base.{
  ℕ, zero, suc, ◌+◌, ◌^◌, ◌<◌, ◌≤◌, ◌≡◌, ◌≢◌, ◌↔◌, refl, sym, ◌∙◌, [], ◌∷◌, ◌++◌, length, drop,
  length-drop, Result, ok, raise, stuck, ◌>>=◌, arith,
}
use sqlalchemy_collectd.Protocol.Bytes.{
  Bytes, big, bytes_at, unpack_short, unpack_char, unpack_header, unpack_long, ascii,
}
use sqlalchemy_collectd.Protocol.Bytes.Laws.{unpack_header-big}
use sqlalchemy_collectd.Protocol.Types.{ValueType, counter, gauge, derive, absolute, type_interval}
use native.Mathlib.Nat.{le_refl}
use sqlalchemy_collectd.Protocol.Unpacker.{
  Parts, no_parts, receive, unpack_string, unpack_value, find_format, unpack_values_loop,
  unpack_values, header_size, unpack_loop, unpack_packet,
}

-- The loop comes to a part of length 0 that its receiver accepts.
pub data Stalls : Bytes → Parts → Type 0 where
  here :
      {buf : Bytes} {r r' : Parts} (kind : ℕ)
      → unpack_header buf ≡ ok (kind, 0)
      → receive kind 0 buf r ≡ ok r'
      → Stalls buf r
  later :
      {buf : Bytes} {r r' : Parts} (kind size : ℕ)
      → unpack_header buf ≡ ok (kind, size)
      → receive kind size buf r ≡ ok r'
      → Stalls (drop size buf) r'
      → Stalls buf r

-- To receive a part again changes nothing.
receive_idem :
    (kind size : ℕ) (buf : Bytes) (r : Parts) {r' : Parts}
    → receive kind size buf r ≡ ok r'
    → receive kind size buf r' ≡ ok r'
unfolding receive
receive_idem kind size buf r h = ground arith

unpack_loop-step :
    (fuel kind size : ℕ) (buf : Bytes) (r : Parts) {r' : Parts}
    → unpack_header buf ≡ ok (kind, size)
    → receive kind size buf r ≡ ok r'
    → unpack_loop (suc fuel) buf r ≡ unpack_loop fuel (drop size buf) r'
unpack_loop-step fuel kind size [] r h acc = unfold unpack_header in cc
unpack_loop-step fuel kind size (b ∷ bs) r h acc = unfold unpack_loop in rw h (rw acc)

unpack_loop-zero :
    (kind size : ℕ) (buf : Bytes) (r : Parts)
    → unpack_header buf ≡ ok (kind, size)
    → unpack_loop zero buf r ≡ stuck
unpack_loop-zero kind size [] r h = unfold unpack_header in cc
unpack_loop-zero kind size (b ∷ bs) r h = unfold unpack_loop in refl

stays :
    (fuel kind : ℕ) (buf : Bytes) (r : Parts)
    → unpack_header buf ≡ ok (kind, 0)
    → receive kind 0 buf r ≡ ok r
    → unpack_loop fuel buf r ≡ stuck
stays zero kind buf r h acc = unpack_loop-zero kind 0 buf r h
stays (suc fuel) kind buf r h acc =
    rw (unpack_loop-step fuel kind 0 buf r h acc) (stays fuel kind buf r h acc)

-- No number of rounds is enough.
unpack_loop-Stalls :
    (fuel : ℕ) (buf : Bytes) (r : Parts) → Stalls buf r → unpack_loop fuel buf r ≡ stuck
unpack_loop-Stalls zero buf r (here kind h acc) = unpack_loop-zero kind 0 buf r h
unpack_loop-Stalls zero buf r (later kind size h acc s) = unpack_loop-zero kind size buf r h
unpack_loop-Stalls (suc fuel) buf r (here {r' = r'} kind h acc) =
    rw (unpack_loop-step fuel kind 0 buf r h acc)
      (stays fuel kind buf r' h (receive_idem kind 0 buf r acc))
unpack_loop-Stalls (suc fuel) buf r (later {r' = r'} kind size h acc s) =
    rw (unpack_loop-step fuel kind size buf r h acc) (unpack_loop-Stalls fuel (drop size buf) r' s)

-- A stuck chain is stuck in one of its parts.
>>=-eq-stuck {ℓ κ} :
    {A : Type ℓ} {B : Type κ} (m : Result A) (f : A → Result B)
    → (m >>= f) ≡ stuck
    → m ≢ stuck
    → (a : A) × (m ≡ ok a) × (f a ≡ stuck)
>>=-eq-stuck (ok a) f h n = (a, refl, h)
>>=-eq-stuck (raise e) f h n = cc
>>=-eq-stuck stuck f h n = absurd (n refl)

bytes_at-ne-stuck : (n : ℕ) (buf : Bytes) (at : ℕ) → bytes_at n buf at ≢ stuck
unfolding bytes_at
bytes_at-ne-stuck n buf at h = ground arith

unpack_header-ne-stuck : (buf : Bytes) → unpack_header buf ≢ stuck
unfolding unpack_header
unpack_header-ne-stuck buf h = ground (arith, bytes_at-ne-stuck 4 buf 0)

unpack_long-ne-stuck : (buf : Bytes) (at : ℕ) → unpack_long buf at ≢ stuck
unfolding unpack_long
unpack_long-ne-stuck buf at h = ground (arith, bytes_at-ne-stuck 8 buf at)

unpack_string-ne-stuck : (size : ℕ) (buf : Bytes) → unpack_string size buf ≢ stuck
unfolding unpack_string ascii
unpack_string-ne-stuck size buf h = ground arith

unpack_value-ne-stuck : (t : ValueType) (buf : Bytes) (at : ℕ) → unpack_value t buf at ≢ stuck
unfolding unpack_value
unpack_value-ne-stuck counter buf at h = ground (arith, bytes_at-ne-stuck 8 buf at)
unpack_value-ne-stuck gauge buf at h = ground (arith, bytes_at-ne-stuck 8 buf at)
unpack_value-ne-stuck derive buf at h = ground (arith, unpack_long-ne-stuck buf at)
unpack_value-ne-stuck absolute buf at h = ground (arith, bytes_at-ne-stuck 8 buf at)

unpack_values_loop-ne-stuck :
    (n : ℕ) (buf : Bytes) (ta vp : ℕ) → unpack_values_loop n buf ta vp ≢ stuck
unfolding unpack_values_loop unpack_char find_format
unpack_values_loop-ne-stuck zero buf ta vp h = cc
unpack_values_loop-ne-stuck (suc n) buf ta vp h =
    let (c, _, h1) =
      >>=-eq-stuck (unpack_char buf ta) _ h (λ e. ground (arith, bytes_at-ne-stuck 1 buf ta)) in
    let (t, _, h2) = >>=-eq-stuck (find_format c) _ h1 (λ e. ground arith) in
    let (x, _, h3) = >>=-eq-stuck (unpack_value t buf vp) _ h2 (unpack_value-ne-stuck t buf vp) in
    ground (arith, unpack_values_loop-ne-stuck n buf (ta + 1) (vp + 8))

unpack_values-ne-stuck : (buf : Bytes) → unpack_values buf ≢ stuck
unfolding unpack_values unpack_short
unpack_values-ne-stuck buf h =
    let (num, _, more) =
      >>=-eq-stuck (unpack_short buf header_size) _ h
        (λ e. ground (arith, bytes_at-ne-stuck 2 buf 4)) in
    unpack_values_loop-ne-stuck num buf 6 (6 + num) more

receive-ne-stuck : (kind size : ℕ) (buf : Bytes) (r : Parts) → receive kind size buf r ≢ stuck
unfolding receive
receive-ne-stuck kind size buf r h =
    ground (
      arith,
      unpack_string-ne-stuck size buf,
      unpack_long-ne-stuck buf 4,
      unpack_values-ne-stuck buf,
    )

unpack_loop-cons :
    (fuel : ℕ) (b : ℕ) (bs : Bytes) (r : Parts)
    → unpack_loop (suc fuel) (b ∷ bs) r ≡ (do
      head ← unpack_header (b ∷ bs)
      r' ← receive head.0 head.1 (b ∷ bs) r
      unpack_loop fuel (drop head.1 (b ∷ bs)) r')
unfolding unpack_loop
unpack_loop-cons fuel b bs r = refl

-- If as many rounds as there are bytes are not enough, the loop has come to a part of length 0.
stuck-Stalls :
    (fuel : ℕ) (buf : Bytes) (r : Parts)
    → length buf ≤ fuel
    → unpack_loop fuel buf r ≡ stuck
    → Stalls buf r
stuck-Stalls fuel [] r n h = unfold unpack_loop in cc
stuck-Stalls zero (b ∷ bs) r n h = absurd (omega arith)
stuck-Stalls (suc fuel) (b ∷ bs) r n h =
    let (head, read, h1) =
      >>=-eq-stuck (unpack_header (b ∷ bs)) _ (sym (unpack_loop-cons fuel b bs r) ∙ h)
        (unpack_header-ne-stuck (b ∷ bs)) in
    let (r', accepted, h2) =
      >>=-eq-stuck (receive head.0 head.1 (b ∷ bs) r) _ h1
        (receive-ne-stuck head.0 head.1 (b ∷ bs) r) in
    part head.0 head.1 r' read accepted (stuck-Stalls fuel (drop head.1 (b ∷ bs)) r') h2
  where
    part :
        (kind size : ℕ) (r' : Parts)
        → unpack_header (b ∷ bs) ≡ ok (kind, size)
        → receive kind size (b ∷ bs) r ≡ ok r'
        → (length (drop size (b ∷ bs)) ≤ fuel
            → unpack_loop fuel (drop size (b ∷ bs)) r' ≡ stuck
            → Stalls (drop size (b ∷ bs)) r')
        → unpack_loop fuel (drop size (b ∷ bs)) r' ≡ stuck
        → Stalls (b ∷ bs) r
    part kind zero r' read accepted rec left = here kind read accepted
    part kind (suc size) r' read accepted rec left =
        later kind (suc size) read accepted (rec (omega (arith, length-drop size bs)) left)

-- `_unpack_packet` goes on for ever exactly on the packets that come to a part of length 0 that its
-- receiver accepts; on any other packet it returns or raises within as many rounds as the packet
-- has bytes.
pub unpack_packet-eq-stuck_iff :
    (buf : Bytes)
    → (((fuel : ℕ) → unpack_loop fuel buf no_parts ≡ stuck) ↔ Stalls buf no_parts)
      × ((¬ Stalls buf no_parts) → unpack_packet buf ≢ stuck)
unfolding unpack_packet
unpack_packet-eq-stuck_iff buf = (
  (
    λ h. stuck-Stalls (length buf) buf no_parts (le_refl (length buf)) (h (length buf)),
    λ s fuel. unpack_loop-Stalls fuel buf no_parts s,
  ),
  λ n h. n (stuck-Stalls (length buf) buf no_parts (le_refl (length buf)) h),
)

receive-unknown :
    (kind size : ℕ) (buf : Bytes) (r : Parts)
    → type_interval < kind
    → receive kind size buf r ≡ ok r
unfolding receive
receive-unknown kind size buf r h = ground arith

-- A packet that begins with a part of an unknown kind and of length 0 is never finished, whatever
-- follows: no number of rounds is enough.
pub unpack_loop-unknown_zero :
    (fuel kind : ℕ) (rest : Bytes)
    → type_interval < kind
    → kind < 2 ^ 16
    → unpack_loop fuel (big 2 kind ++ (big 2 0 ++ rest)) no_parts ≡ stuck
unpack_loop-unknown_zero fuel kind rest unknown fits = unpack_loop-Stalls fuel _ no_parts (
    here kind (unpack_header-big kind 0 rest fits (omega arith))
      (receive-unknown kind 0 _ no_parts unknown))
