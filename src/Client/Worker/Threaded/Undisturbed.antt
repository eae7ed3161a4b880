-- ===== src/Client/Worker/Threaded/Undisturbed.antt =====
-- client/worker.py: a round in which nothing is added.
use sqlalchemy_collectd.Base.{
  ◌≡◌, refl, ap, sym, ◌∙◌, inl, inr, Bool, true, false, ◌||◌, Bool-cases, List, [], ◌∷◌, ◌++◌,
  length, if◌then◌else◌, Eq, ◌==◌, beq_refl, ℤ, arith, nat_eq,
}
use mathlib.Core.Path.{subst}
use mathlib.Core.List.{append_assoc}
use sqlalchemy_collectd.Base.Dict.{Dict, insert, contains}
use sqlalchemy_collectd.Client.Worker.{Ending, through, is_due, round}
use sqlalchemy_collectd.Client.Worker.Rate.{IsDict, no_exit, round-through}
use sqlalchemy_collectd.Client.Worker.Threaded.{last_written, items_loop}

-- the time that a round leaves
abbrev written_time : ℤ → ℤ → ℤ → ℤ
written_time now interval t = if is_due now interval t then now else t

-- a call of the sender, if the target is due, before the calls that follow
abbrev with_call {ℓ} :
    {K : Type 0} {R : Type ℓ} → Bool → K → (Dict K ℤ × List K) × R → (Dict K ℤ × List K) × R
with_call due k ((d, calls), r) = ((d, if due then k ∷ calls else calls), r)

module _ {K : Type 0} ⦃e : Eq K⦄ where
  differs :
      (done : Dict K ℤ) (k j : K) (t : ℤ) (d : Dict K ℤ)
      → contains j (done ++ (k, t) ∷ d) ≡ false
      → (j == k) ≡ false
  differs [] k j t d h = ground (arith, e.beq_iff k j, e.beq_iff j k, h)
  differs ((i, u) ∷ done) k j t d h = differs done k j t d (ground (arith, h))

  -- what stands in front of an entry has another key
  front-absent :
      (done : Dict K ℤ) (k : K) (t : ℤ) (d : Dict K ℤ)
      → IsDict (done ++ (k, t) ∷ d)
      → contains k done ≡ false
  front-absent [] k t d h = refl
  front-absent ((j, u) ∷ done) k t d h = rw (differs done k j t d h.0) (front-absent done k t d h.1)

  insert-middle :
      (done : Dict K ℤ) (k : K) (t u : ℤ) (d : Dict K ℤ)
      → contains k done ≡ false
      → insert k u (done ++ (k, t) ∷ d) ≡ done ++ (k, u) ∷ d
  insert-middle [] k t u d h = rw (beq_refl k) refl
  insert-middle ((j, v) ∷ done) k t u d h =
      rw (own h) (ap (◌∷◌ (j, v)) (insert-middle done k t u d (ground (arith, h))))
    where
      own : contains k ((j, v) ∷ done) ≡ false → (j == k) ≡ false
      own h = ground (arith, h)

  contains-middle :
      (done : Dict K ℤ) (k j : K) (t u : ℤ) (d : Dict K ℤ)
      → contains j (done ++ (k, u) ∷ d) ≡ contains j (done ++ (k, t) ∷ d)
  contains-middle [] k j t u d = refl
  contains-middle ((i, v) ∷ done) k j t u d = ap (λ b. i == j || b) (contains-middle done k j t u d)

  middle-IsDict :
      (done : Dict K ℤ) (k : K) (t u : ℤ) (d : Dict K ℤ)
      → IsDict (done ++ (k, t) ∷ d)
      → IsDict (done ++ (k, u) ∷ d)
  middle-IsDict [] k t u d h = h
  middle-IsDict ((i, v) ∷ done) k t u d h =
      (contains-middle done k i t u d ∙ h.0, middle-IsDict done k t u d h.1)

  module _ (now interval : ℤ) where
    last_written-middle :
        (done : Dict K ℤ) (k : K) (t : ℤ) (d : Dict K ℤ)
        → IsDict (done ++ (k, t) ∷ d)
        → last_written now interval k t (done ++ (k, t) ∷ d)
          ≡ done ++ (k, written_time now interval t) ∷ d
    last_written-middle done k t d h = elim (Bool-cases (is_due now interval t)) [
      | inl due ↦ rw due (insert-middle done k t now d (front-absent done k t d h))
      | inr early ↦ rw early refl
    ]

    items_loop-next :
        (k : K) (t : ℤ) (entry : K × ℤ) (entries d : Dict K ℤ)
        → items_loop no_exit now interval ((k, t) ∷ entry ∷ entries) [] d
          ≡ with_call (is_due now interval t) k (
              items_loop no_exit now interval
                (entry ∷ entries)
                []
                (last_written now interval k t d))
    unfolding items_loop
    items_loop-next k t entry entries d =
        rw (beq_refl (length (last_written now interval k t d))) refl

    round-next :
        (k : K) (t : ℤ) (entries done : Dict K ℤ)
        → ◌≡◌ {A = (Dict K ℤ × List K) × Ending}
            (with_call (is_due now interval t) k (
              (
                (done ++ (k, written_time now interval t) ∷ [])
                    ++ (round no_exit now interval entries).0.0,
                (round no_exit now interval entries).0.1,
              ),
              through,
            ))
            (
              (
                done ++ (round no_exit now interval ((k, t) ∷ entries)).0.0,
                (round no_exit now interval ((k, t) ∷ entries)).0.1,
              ),
              through,
            )
    unfolding round
    round-next k t entries done = elim (Bool-cases (is_due now interval t)) [
      | inl due ↦ rw due (
          ap (λ d. ((d, k ∷ (round no_exit now interval entries).0.1), through))
            (append_assoc done ((k, now) ∷ []) (round no_exit now interval entries).0.0))
      | inr early ↦ rw early (
          ap (λ d. ((d, (round no_exit now interval entries).0.1), through))
            (append_assoc done ((k, t) ∷ []) (round no_exit now interval entries).0.0))
    ]

    items_loop-from :
        (entries done : Dict K ℤ)
        → IsDict (done ++ entries)
        → items_loop no_exit now interval entries [] (done ++ entries) ≡ (
          (
            done ++ (round no_exit now interval entries).0.0,
            (round no_exit now interval entries).0.1,
          ),
          through,
        )
    unfolding items_loop round
    items_loop-from [] done h = refl
    items_loop-from ((k, t) ∷ []) done h =
        rw (last_written-middle done k t [] h) (last (is_due now interval t))
      where
        last :
            (due : Bool)
            → ◌≡◌ {A = (Dict K ℤ × List K) × Ending}
                ((done ++ (k, if due then now else t) ∷ [], if due then k ∷ [] else []), through)
                (
                  (
                    done
                        ++ (if◌then◌else◌ {A = (Dict K ℤ × List K) × Ending} due
                            (((k, now) ∷ [], k ∷ []), through)
                            (((k, t) ∷ [], []), through)).0.0,
                    (if◌then◌else◌ {A = (Dict K ℤ × List K) × Ending} due
                        (((k, now) ∷ [], k ∷ []), through)
                        (((k, t) ∷ [], []), through)).0.1,
                  ),
                  through,
                )
        last true = refl
        last false = refl
    items_loop-from ((k, t) ∷ entry ∷ entries) done h =
        let time = written_time now interval t in
        let here = done ++ (k, time) ∷ [] in
        let moved = append_assoc done ((k, time) ∷ []) (entry ∷ entries) in
        items_loop-next k t entry entries (done ++ (k, t) ∷ entry ∷ entries)
        ∙ ap (with_call (is_due now interval t) k) (
            ap (items_loop no_exit now interval (entry ∷ entries) [])
              (last_written-middle done k t (entry ∷ entries) h ∙ sym moved)
            ∙ items_loop-from (entry ∷ entries) here
                (subst IsDict (sym moved) (middle-IsDict done k t time (entry ∷ entries) h)))
        ∙ round-next k t (entry ∷ entries) done

    -- Where nothing is added meanwhile, the loop over the dictionary that it writes to raises nothing,
    -- and it is the round that reads each entry once: the same times, and the same calls in order.
    pub items_loop-round :
        (d : Dict K ℤ)
        → IsDict d
        → items_loop no_exit now interval d [] d ≡ round no_exit now interval d
    items_loop-round d h =
        items_loop-from d [] h
        ∙ ap (λ ending. ((round no_exit now interval d).0, ending))
            (sym (round-through now interval d))
