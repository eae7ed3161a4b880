-- ===== src/Client/Worker/Rate.antt =====
-- client/worker.py: how often the thread calls the sender of a target.
use sqlalchemy_collectd.Base.{
  Bool, sym, ◌∙◌, map, ltb_ℤ, ◌+ℤ◌, ◌-ℤ◌, +ℤ_parts, -ℤ_parts, true, false, ◌||◌, some, List, [],
  ◌∷◌, ◌≡◌, refl, ap, Eq, ◌==◌, if◌then◌else◌, ℤ, Bool-cases, inl, inr, arith,
}
use sqlalchemy_collectd.Base.Dict.{Dict, lookup, contains}
use sqlalchemy_collectd.Protocol.Values.{of_seconds}
use sqlalchemy_collectd.Client.Worker.{is_due, through, is_through, round}

-- The times that are due, by the times alone: each is more than an interval after the one before.
unfoldable pub due_times : ℤ → ℤ → List ℤ → List ℤ
due_times interval last_called [] = []
due_times interval last_called (now ∷ nows) =
    let called = due_times interval now nows in
    let rest = due_times interval last_called nows in
    if ltb_ℤ (last_called +ℤ of_seconds interval) now then now ∷ called else rest

is_due-later :
    (now interval last_called : ℤ)
    → is_due now interval last_called ≡ ltb_ℤ (last_called +ℤ of_seconds interval) now
is_due-later now interval last_called = moved now (of_seconds interval) last_called
  where
    moved : (a i b : ℤ) → ltb_ℤ i (a -ℤ b) ≡ ltb_ℤ (b +ℤ i) a
    moved a i b = ground (arith, +ℤ_parts b i, -ℤ_parts a b)

module _ {K : Type 0} ⦃e : Eq K⦄ where
  abbrev pub has : K → List K → Bool
  has k [] = false
  has k (j ∷ js) = j == k || has k js

  abbrev pub IsDict : Dict K ℤ → Type 0
  IsDict [] = Unit {0}
  IsDict ((k, t) ∷ d) = (contains k d ≡ false) × IsDict d

  -- The times at which the sender of a target is called, over rounds each with its time and the
  -- senders that raise what is no `Exception` in it. A round that such a sender ends is the last one.
  unfoldable pub call_times : K → ℤ → List (ℤ × (K → Bool)) → Dict K ℤ → List ℤ
  call_times k interval [] d = []
  call_times k interval ((now, exits) ∷ rounds) d =
      let ((d', calls), ending) = round exits now interval d in
      let later = call_times k interval rounds d' in
      let rest = if is_through ending then later else [] in if has k calls then now ∷ rest else rest

  abbrev pub no_exit : K → Bool
  no_exit k = false

  -- the rounds at some times in which no sender raises anything but an `Exception`
  abbrev pub undisturbed : List ℤ → List (ℤ × (K → Bool))
  undisturbed nows = map (λ now. (now, no_exit)) nows

  pub round-through : (now interval : ℤ) (d : Dict K ℤ) → (round no_exit now interval d).1 ≡ through
  unfolding round
  round-through now interval [] = refl
  round-through now interval ((j, t) ∷ d) = ground (arith, round-through now interval d)

  contains-round :
      (now interval : ℤ) (k : K) (d : Dict K ℤ)
      → contains k (round no_exit now interval d).0.0 ≡ contains k d
  unfolding round
  contains-round now interval k [] = refl
  contains-round now interval k ((j, t) ∷ d) = ground (arith, contains-round now interval k d)

  round-IsDict :
      (now interval : ℤ) (d : Dict K ℤ) → IsDict d → IsDict (round no_exit now interval d).0.0
  unfolding round
  round-IsDict now interval [] h = tt
  round-IsDict now interval ((j, t) ∷ d) h =
      ground (arith, contains-round now interval j d, round-IsDict now interval d h.1, h.0)

  absent-has :
      (now interval : ℤ) (k j : K) (d : Dict K ℤ)
      → contains k d ≡ false
      → (k == j) ≡ true
      → has j (round no_exit now interval d).0.1 ≡ false
  unfolding round
  absent-has now interval k j [] h same = refl
  absent-has now interval k j ((i, t) ∷ d) h same =
      ground (arith, e.beq_iff k j, e.beq_iff i k, e.beq_iff i j, absent-has now interval k j d)

  round-has :
      (now interval last_called : ℤ) (k : K) (d : Dict K ℤ)
      → IsDict d
      → lookup k d ≡ some last_called
      → (has k (round no_exit now interval d).0.1 ≡ is_due now interval last_called)
        × (lookup k (round no_exit now interval d).0.0
            ≡ some (if is_due now interval last_called then now else last_called))
  unfolding round
  round-has now interval last_called k [] h found = cc
  round-has now interval last_called k ((j, t) ∷ d) h found =
      ground (
        arith,
        found,
        absent-has now interval j k d h.0,
        round-has now interval last_called k d h.1,
      )

  -- Over any rounds in which no sender raises anything but an `Exception`, the sender of a target is
  -- called in a round exactly if its time is more than the interval after the time of the last call
  -- before it, whatever the other targets are.
  pub call_times-eq-due_times :
      (k : K) (interval last_called : ℤ) (nows : List ℤ) (d : Dict K ℤ)
      → IsDict d
      → lookup k d ≡ some last_called
      → call_times k interval (undisturbed nows) d ≡ due_times interval last_called nows
  unfolding call_times due_times
  call_times-eq-due_times k interval last_called [] d h found = refl
  call_times-eq-due_times k interval last_called (now ∷ nows) d h found =
      let (called, later) = round-has now interval last_called k d h found in
      let d' = (round no_exit now interval d).0.0 in
      let goes_on = round-through now interval d in
      let test = is_due-later now interval last_called in
      elim (Bool-cases (is_due now interval last_called)) [
        | inl due ↦
            rw (goes_on, called, due, sym test ∙ due)
              (ap (◌∷◌ now) (
                call_times-eq-due_times k interval now nows d' (round-IsDict now interval d h)
                  (ground (arith, later, due))))
        | inr early ↦
            rw (goes_on, called, early, sym test ∙ early)
              (call_times-eq-due_times k interval last_called nows d'
                (round-IsDict now interval d h) (ground (arith, later, early)))
      ]
