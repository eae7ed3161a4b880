-- ===== src/Network/Listeners/Reached.antt =====
-- networking.py: whom `UDPServerSender` reaches.
use sqlalchemy_collectd.Base.{
  Bool, true, false, ◌&&◌, ◌||◌, not, Option, none, some, List, [], ◌∷◌, ◌≡◌, ◌⊎◌, inl, inr, refl,
  if◌then◌else◌, Eq, nat_eq, list_eq, ◌==◌, ℤ, pos, ◌-ℤ◌, ltb_ℤ, ◌≤ℤ◌, -ℤ_parts, arith, Bool-cases,
}
use sqlalchemy_collectd.Base.Dict.{
  Dict, lookup, insert, remove, contains, lookup-insert, lookup-remove,
}
use sqlalchemy_collectd.Protocol.Values.{of_seconds}
use sqlalchemy_collectd.CollectdTypes.{text}
use sqlalchemy_collectd.Network.Listeners.{
  is_expired, send_loop, send_to_all, Call, received, sent, run,
}

-- The times of the calls do not go back, from a first time on.
abbrev pub AreOrdered : {A : Type 0} → ℤ → List (Call A) → Type 0
AreOrdered t [] = Unit {0}
AreOrdered t (received datagram addr now ∷ cs) = (t ≤ℤ now) × AreOrdered now cs
AreOrdered t (sent connected now ∷ cs) = (t ≤ℤ now) × AreOrdered now cs

abbrev pub last_time : {A : Type 0} → ℤ → List (Call A) → ℤ
last_time t [] = t
last_time t (received datagram addr now ∷ cs) = last_time now cs
last_time t (sent connected now ∷ cs) = last_time now cs

abbrev pub is_fresh : ℤ → Option ℤ → Bool
is_fresh now none = false
is_fresh now (some ts) = not (is_expired now ts)

abbrev is_old : ℤ → Option ℤ → Bool
is_old now none = false
is_old now (some ts) = is_expired now ts

-- What the dictionary has for an address against the last HELO: the same, or nothing and the HELO
-- is too old.
abbrev Follows : ℤ → Option ℤ → Option ℤ → Type 0
Follows t found o = (found ≡ o) ⊎ ((found ≡ none) × (is_old t o ≡ true))

is_old_later : (t now : ℤ) (o : Option ℤ) → t ≤ℤ now → is_old t o ≡ true → is_old now o ≡ true
is_old_later t now none h old = cc
is_old_later t now (some ts) h old = later (of_seconds (pos 30)) t now ts h old
  where
    later : (b t now ts : ℤ) → t ≤ℤ now → ltb_ℤ b (t -ℤ ts) ≡ true → ltb_ℤ b (now -ℤ ts) ≡ true
    later b t now ts h old = ground (arith, -ℤ_parts t ts, -ℤ_parts now ts)

Follows-later :
    (t now : ℤ) (found o : Option ℤ) → t ≤ℤ now → Follows t found o → Follows now found o
Follows-later t now found o h f = ground (arith, f, is_old_later t now o h)

module _ {A : Type 0} ⦃e : Eq A⦄ where
  -- the time of the last HELO from an address, by the calls alone
  unfoldable pub last_helo : A → Option ℤ → List (Call A) → Option ℤ
  last_helo a o [] = o
  last_helo a o (received datagram addr now ∷ cs) =
      let here = last_helo a (some now) cs in
      let rest = last_helo a o cs in if datagram == text "HELO" && addr == a then here else rest
  last_helo a o (sent connected now ∷ cs) = last_helo a o cs

  abbrev pub has : A → List A → Bool
  has a [] = false
  has a (b ∷ bs) = b == a || has a bs

  abbrev IsDict : Dict A ℤ → Type 0
  IsDict [] = Unit {0}
  IsDict ((a, ts) ∷ d) = (contains a d ≡ false) × IsDict d

  absent : (a b : A) (d : Dict A ℤ) → contains a d ≡ false → (a == b) ≡ true → lookup b d ≡ none
  absent a b [] h same = refl
  absent a b ((c, ts) ∷ d) h same =
      ground (arith, e.beq_iff a b, e.beq_iff c a, e.beq_iff c b, absent a b d)

  send_loop-has :
      (now : ℤ) (connected : Bool) (a : A) (items d : Dict A ℤ)
      → IsDict items
      → has a (send_loop now connected items d).0 ≡ (connected && is_fresh now (lookup a items))
  unfolding send_loop
  send_loop-has now connected a [] d h = ground arith
  send_loop-has now connected a ((b, ts) ∷ items) d h = ground (
    arith,
    e.beq_iff b a,
    absent b a items h.0,
    send_loop-has now connected a items d h.1,
    send_loop-has now connected a items (remove b d) h.1,
  )

  send_loop-lookup :
      (now : ℤ) (connected : Bool) (a : A) (items d : Dict A ℤ)
      → IsDict items
      → lookup a (send_loop now connected items d).1
        ≡ (if is_old now (lookup a items) then none else lookup a d)
  unfolding send_loop
  send_loop-lookup now connected a [] d h = refl
  send_loop-lookup now connected a ((b, ts) ∷ items) d h = ground (
    arith,
    e.beq_iff b a,
    absent b a items h.0,
    send_loop-lookup now connected a items d h.1,
    send_loop-lookup now connected a items (remove b d) h.1,
    lookup-remove b a d,
  )

  insert-absent :
      (a b : A) (ts : ℤ) (d : Dict A ℤ)
      → (b == a) ≡ false
      → contains a d ≡ false
      → contains a (insert b ts d) ≡ false
  insert-absent a b ts [] n h = ground arith
  insert-absent a b ts ((c, x) ∷ d) n h =
      ground (arith, e.beq_iff c b, e.beq_iff c a, e.beq_iff b a, insert-absent a b ts d n)

  insert-IsDict : (a : A) (ts : ℤ) (d : Dict A ℤ) → IsDict d → IsDict (insert a ts d)
  insert-IsDict a ts [] h = (refl, tt)
  insert-IsDict a ts ((b, x) ∷ d) h =
      ground (arith, e.beq_iff a b, e.beq_iff b a, insert-IsDict a ts d h.1, insert-absent b a ts d)

  remove-absent : (a b : A) (d : Dict A ℤ) → contains a d ≡ false → contains a (remove b d) ≡ false
  remove-absent a b [] h = refl
  remove-absent a b ((c, x) ∷ d) h = ground (arith, remove-absent a b d)

  remove-IsDict : (a : A) (d : Dict A ℤ) → IsDict d → IsDict (remove a d)
  remove-IsDict a [] h = tt
  remove-IsDict a ((b, x) ∷ d) h = ground (arith, remove-IsDict a d h.1, remove-absent b a d)

  send_loop-IsDict :
      (now : ℤ) (connected : Bool) (items d : Dict A ℤ)
      → IsDict d
      → IsDict (send_loop now connected items d).1
  unfolding send_loop
  send_loop-IsDict now connected [] d h = h
  send_loop-IsDict now connected ((b, ts) ∷ items) d h = ground (
    arith,
    send_loop-IsDict now connected items d h,
    send_loop-IsDict now connected items (remove b d) (remove-IsDict b d h),
  )

  send_to_all-Follows :
      (cs : List (Call A)) (d : Dict A ℤ) (o : Option ℤ) (t now : ℤ) (connected : Bool) (a : A)
      → IsDict d
      → Follows t (lookup a d) o
      → AreOrdered t cs
      → last_time t cs ≤ℤ now
      → has a (send_to_all now connected (run cs d)).0
        ≡ (connected && is_fresh now (last_helo a o cs))
  unfolding send_to_all run last_helo
  send_to_all-Follows [] d none t now connected a h f ordered late =
      ground (arith, send_loop-has now connected a d d h, f)
  send_to_all-Follows [] d (some ts) t now connected a h f ordered late =
      ground (arith, send_loop-has now connected a d d h, f, is_old_later t now (some ts) late)
  send_to_all-Follows (received datagram addr at ∷ cs) d o t now connected a h f ordered late =
      elim (Bool-cases (datagram == text "HELO")) [
        | inl helo ↦ elim (Bool-cases (addr == a)) [
          | inl same ↦ rw helo (
              rw same (
                send_to_all-Follows cs (insert addr at d) (some at) at now connected a
                  (insert-IsDict addr at d h)
                  (inl (ground (arith, lookup-insert addr a at d, same))) ordered.1 late))
          | inr other ↦ rw helo (
              rw other (
                send_to_all-Follows cs (insert addr at d) o at now connected a
                  (insert-IsDict addr at d h)
                  (ground (
                    arith,
                    lookup-insert addr a at d,
                    other,
                    Follows-later t at (lookup a d) o ordered.0 f,
                  ))
                  ordered.1 late))
        ]
        | inr no_helo ↦ rw no_helo (
            send_to_all-Follows cs d o at now connected a h
              (Follows-later t at (lookup a d) o ordered.0 f) ordered.1 late)
      ]
  send_to_all-Follows (sent linked at ∷ cs) d o t now connected a h f ordered late =
      send_to_all-Follows cs (send_to_all at linked d).1 o at now connected a
        (send_loop-IsDict at linked d d h)
        (popped at (lookup a d) (lookup a (send_to_all at linked d).1) o
          (send_loop-lookup at linked a d d h) (Follows-later t at (lookup a d) o ordered.0 f))
        ordered.1 late
    where
      popped :
          (at : ℤ) (found left o : Option ℤ)
          → left ≡ (if is_old at found then none else found)
          → Follows at found o
          → Follows at left o
      popped at none left o eq f = ground (arith, f, eq)
      popped at (some ts) left o eq f = ground (arith, f, eq)

  -- Whatever datagrams came and messages went before, at times that do not go back: a message goes
  -- to an address, exactly when the transport is there and the last HELO from the address is at most 30
  -- seconds old.
  pub send_to_all-has :
      (cs : List (Call A)) (t now : ℤ) (connected : Bool) (a : A)
      → AreOrdered t cs
      → last_time t cs ≤ℤ now
      → has a (send_to_all now connected (run cs [])).0
        ≡ (connected && is_fresh now (last_helo a none cs))
  send_to_all-has cs t now connected a ordered late =
      send_to_all-Follows cs [] none t now connected a tt (inl refl) ordered late
