-- ===== src/Server/Receiver/Keys.antt =====
-- server/receiver.py: the order in which `sorted` puts the keys of a bucket.
use sqlalchemy_collectd.Base.{
  Bool, true, false, ◌≢◌, All, ℤ, none, some, if◌then◌else◌, ◌==◌, Option, List, [], ◌∷◌, ◌≡◌, refl,
  nat_eq, list_eq, option_eq, pair_eq, length, arith,
}
use sqlalchemy_collectd.Base.Sorting.{sorted, groupby}
use sqlalchemy_collectd.Base.Sorting.Order.{
  StrictOrder, sorted-IsSorted, option_before-StrictOrder, pair_before-StrictOrder,
}
use sqlalchemy_collectd.Base.Sorting.Groups.{
  select, sorted-select, IsSorted-IsGrouped, HasOneGroup, groupby-HasOneGroup,
}
use sqlalchemy_collectd.Base.Dict.{Dict, keys}
use sqlalchemy_collectd.Protocol.Bytes.{Text}
use sqlalchemy_collectd.Protocol.Values.{Values}
use sqlalchemy_collectd.Stream.TimeBucket.{Entry, expire}
use sqlalchemy_collectd.Server.Receiver.{
  Key, text_before, slot_before, key_before, program_of, host_of, is_comparable_slot, is_comparable,
  is_comparable_with, are_comparable,
}

text_before-asymm : (a b : Text) → text_before a b ≡ true → text_before b a ≡ false
text_before-asymm [] [] h = cc
text_before-asymm [] (y ∷ ys) h = refl
text_before-asymm (x ∷ xs) [] h = cc
text_before-asymm (x ∷ xs) (y ∷ ys) h = ground (arith, text_before-asymm xs ys)

text_before-le_trans :
    (a b c : Text) → text_before b a ≡ false → text_before c b ≡ false → text_before c a ≡ false
text_before-le_trans [] [] [] h k = refl
text_before-le_trans [] [] (z ∷ zs) h k = refl
text_before-le_trans [] (y ∷ ys) [] h k = cc
text_before-le_trans [] (y ∷ ys) (z ∷ zs) h k = refl
text_before-le_trans (x ∷ xs) [] c h k = cc
text_before-le_trans (x ∷ xs) (y ∷ ys) [] h k = cc
text_before-le_trans (x ∷ xs) (y ∷ ys) (z ∷ zs) h k = ground (arith, text_before-le_trans xs ys zs)

text_before-antisym : (a b : Text) → text_before a b ≡ false → text_before b a ≡ false → a ≡ b
text_before-antisym [] [] h k = refl
text_before-antisym [] (y ∷ ys) h k = cc
text_before-antisym (x ∷ xs) [] h k = cc
text_before-antisym (x ∷ xs) (y ∷ ys) h k = ground (arith, text_before-antisym xs ys)

text_order : StrictOrder text_before
text_order = record {
  asymm = text_before-asymm;
  le_trans = text_before-le_trans;
  antisym = text_before-antisym;
}

slot_order : StrictOrder slot_before
slot_order = option_before-StrictOrder text_before text_order

pub key_order : StrictOrder key_before
key_order =
    pair_before-StrictOrder slot_before _ slot_order
      (pair_before-StrictOrder slot_before slot_before slot_order slot_order)

-- Between two keys of one host, or of one program, stand only such.
host_convex :
    (x y z : Key)
    → key_before y x ≡ false
    → key_before z y ≡ false
    → host_of z ≡ host_of x
    → host_of y ≡ host_of x
host_convex (h, (p, t)) (h', (p', t')) (h₂, (p₂, t₂)) b c same = ground (
  arith,
  same,
  b,
  c,
  (option_eq {A = Text}).beq_iff h' h,
  (option_eq {A = Text}).beq_iff h₂ h',
  slot_order.antisym h h',
)

program_convex :
    (x y z : Key)
    → key_before y x ≡ false
    → key_before z y ≡ false
    → program_of z ≡ program_of x
    → program_of y ≡ program_of x
program_convex (h, (p, t)) (h', (p', t')) (h₂, (p₂, t₂)) b c same = ground (
  arith,
  same,
  b,
  c,
  (option_eq {A = Text}).beq_iff h' h,
  (option_eq {A = Text}).beq_iff h₂ h',
  (option_eq {A = Text}).beq_iff p' p,
  (option_eq {A = Text}).beq_iff p₂ p',
  slot_order.antisym h h',
  slot_order.antisym p p',
)

-- Whatever keys a bucket has, in whatever order: of the groups that the two methods walk, each
-- program and each host that occurs has exactly one, with all of its keys, in order, and no other
-- program or host has any.
pub groups_of-groupby :
    (ks : List Key) (p : Option Text × Option Text) (h : Option Text)
    → HasOneGroup program_of p (sorted key_before ks) (groupby program_of (sorted key_before ks))
      × HasOneGroup host_of h (sorted key_before ks) (groupby host_of (sorted key_before ks))
      × (length (select program_of p (sorted key_before ks)) ≡ length (select program_of p ks))
      × (length (select host_of h (sorted key_before ks)) ≡ length (select host_of h ks))
groups_of-groupby ks p h = (
  groupby-HasOneGroup program_of p (sorted key_before ks) (
      IsSorted-IsGrouped program_of program_convex (sorted key_before ks)
        (sorted-IsSorted key_order ks)),
  groupby-HasOneGroup host_of h (sorted key_before ks) (
      IsSorted-IsGrouped host_of host_convex (sorted key_before ks) (sorted-IsSorted key_order ks)),
  sorted-select program_of key_before p ks,
  sorted-select host_of key_before h ks,
)

-- a text in each slot
abbrev pub HasTexts : Key → Type 0
HasTexts (h, (p, t)) = (h ≢ none) × (p ≢ none) × (t ≢ none)

is_comparable-HasTexts : (k j : Key) → HasTexts k → HasTexts j → is_comparable k j ≡ true
is_comparable-HasTexts (h, (p, t)) (h', (p', t')) (a, b, c) (a', b', c') =
    rw (slot h h' a a', slot p p' b b', slot t t' c c') (same (h == h') (p == p'))
  where
    slot : (s t : Option Text) → s ≢ none → t ≢ none → is_comparable_slot s t ≡ true
    slot none t a b = absurd (a refl)
    slot (some s) none a b = absurd (b refl)
    slot (some s) (some t) a b = refl

    same : (x y : Bool) → (if x then (if y then true else true) else true) ≡ true
    same true true = refl
    same true false = refl
    same false y = refl

is_comparable_with-HasTexts :
    (k : Key) (ks : List Key) → HasTexts k → All HasTexts ks → is_comparable_with k ks ≡ true
is_comparable_with-HasTexts k [] h hs = refl
is_comparable_with-HasTexts k (j ∷ js) h hs =
    rw (is_comparable-HasTexts k j h hs.0) (is_comparable_with-HasTexts k js h hs.1)

-- Keys that have only texts can be compared.
pub are_comparable-HasTexts : (ks : List Key) → All HasTexts ks → are_comparable ks ≡ true
unfolding are_comparable
are_comparable-HasTexts [] h = refl
are_comparable-HasTexts (k ∷ ks) h =
    rw (is_comparable_with-HasTexts k ks h.0 h.1) (are_comparable-HasTexts ks h.1)

pub HasTexts-expire :
    (now : ℤ) (d : Dict Key (Entry Values))
    → All HasTexts (keys d)
    → All HasTexts (keys (expire now d).0)
unfolding expire
HasTexts-expire now [] h = tt
HasTexts-expire now ((k, x) ∷ d) h = ground (arith, HasTexts-expire now d h.1, h.0)
