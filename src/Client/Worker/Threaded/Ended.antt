-- ===== src/Client/Worker/Threaded/Ended.antt =====
-- client/worker.py: the thread that has ended is not started again.
use sqlalchemy_collectd.Base.{
  zero, ◌<◌, ◌&&◌, ℕ, suc, ◌≡◌, ◌≤◌, refl, ap, sym, ◌∙◌, inl, inr, Bool, true, false, ◌||◌, not,
  Bool-cases, List, [], ◌∷◌, length, if◌then◌else◌, Eq, ◌==◌, beq-eq, beq_refl, nat_beq, ℤ, pos,
  All, All-map, arith,
}
use sqlalchemy_collectd.Base.Dict.{Dict, insert, contains, contains-insert}
use mathlib.Core.Path.{subst}
use sqlalchemy_collectd.Client.Worker.Rate.{has}
use sqlalchemy_collectd.Client.Worker.{
  Threads, check_threads_started, is_due, add_target, Ending, is_through, sender_exits,
  dict_changed,
}
use sqlalchemy_collectd.Client.Worker.Threaded.{
  add_each, last_written, items_loop, Process, Step, added, rounded, step, run,
}

false-true : false ≡ true → ⊥
false-true q = cc

module _ {K : Type 0} ⦃e : Eq K⦄ where
  length-insert :
      (k : K) (t : ℤ) (d : Dict K ℤ)
      → length (insert k t d) ≡ (if contains k d then length d else suc (length d))
  length-insert k t [] = refl
  length-insert k t ((j, u) ∷ d) = ground (arith, length-insert k t d)

  add_target-grows :
      (k : K) (d : Dict K ℤ) → contains k d ≡ false → length (add_target k d) ≡ suc (length d)
  unfolding add_target
  add_target-grows k d h = rw (add_target, h) (length-insert k (pos 0) d ∙ rw h refl)

  add_target-keeps : (k : K) (d : Dict K ℤ) → length d ≤ length (add_target k d)
  unfolding add_target
  add_target-keeps k d = ground (arith, length-insert k (pos 0) d)

  add_each-keeps : (ks : List K) (d : Dict K ℤ) → length d ≤ length (add_each ks d)
  add_each-keeps [] d = omega arith
  add_each-keeps (k ∷ ks) d =
      omega (arith, add_target-keeps k d, add_each-keeps ks (add_target k d))

  contains-add_target :
      (k n : K) (d : Dict K ℤ) → contains n d ≡ true → contains n (add_target k d) ≡ true
  unfolding add_target
  contains-add_target k n d h = ground (arith, contains-insert k n (pos 0) d)

  -- A target that is not there yet makes the dictionary grow.
  add_each-grows :
      (ks : List K) (n : K) (d : Dict K ℤ)
      → has n ks ≡ true
      → contains n d ≡ false
      → length d < length (add_each ks d)
  unfolding add_target
  add_each-grows [] n d h new = cc
  add_each-grows (k ∷ ks) n d h new = elim (Bool-cases (contains k d)) [
    | inl there ↦ elim (Bool-cases (k == n)) [
      | inl same ↦
          absurd (false-true (sym new ∙ ap (λ j. contains j d) (sym (beq-eq k n same)) ∙ there))
      | inr other ↦ rw (add_target, there) (add_each-grows ks n d (rw other at h) new)
    ]
    | inr absent ↦ omega (arith, add_target-grows k d absent, add_each-keeps ks (add_target k d))
  ]

  -- What does not grow stays as it is.
  add_each-same :
      (ks : List K) (d : Dict K ℤ)
      → nat_beq (length (add_each ks d)) (length d) ≡ true
      → add_each ks d ≡ d
  unfolding add_target
  add_each-same [] d h = refl
  add_each-same (k ∷ ks) d h = elim (Bool-cases (contains k d)) [
    | inl there ↦
        let kept : add_target k d ≡ d = rw (add_target, there) refl in
        ap (add_each ks) kept
        ∙ add_each-same ks d
            (subst (λ c. nat_beq (length (add_each ks c)) (length d) ≡ true) kept h)
    | inr absent ↦
        absurd (too_long (add_target-grows k d absent) (add_each-keeps ks (add_target k d)))
  ]
    where
      too_long :
          length (add_target k d) ≡ suc (length d)
          → length (add_target k d) ≤ length (add_each ks (add_target k d))
          → ⊥
      too_long grown keeps = ground (arith, h, grown, keeps)

  last_written-absent :
      (now interval last_called : ℤ) (k n : K) (d : Dict K ℤ)
      → contains k d ≡ true
      → contains n d ≡ false
      → contains n (last_written now interval k last_called d) ≡ false
  last_written-absent now interval last_called k n d known new =
      elim (Bool-cases (is_due now interval last_called)) [
        | inl due ↦ rw due (contains-insert k n now d ∙ rw (differ (k == n) refl, new) refl)
        | inr early ↦ rw early new
      ]
    where
      differ : (b : Bool) → (k == n) ≡ b → (k == n) ≡ false
      differ false h = h
      differ true h =
          absurd (false-true (sym new ∙ ap (λ j. contains j d) (sym (beq-eq k n h)) ∙ known))

  last_written-known :
      (now interval last_called : ℤ) (k n : K) (d : Dict K ℤ)
      → contains n d ≡ true
      → contains n (last_written now interval k last_called d) ≡ true
  last_written-known now interval last_called k n d h =
      elim (Bool-cases (is_due now interval last_called)) [
        | inl due ↦ rw due (ground (arith, contains-insert k n now d))
        | inr early ↦ rw early h
      ]

  -- a target that is new, among those that are added while the entry at a place is handled
  abbrev pub AddsAt : ℕ → K → List (List K) → Type 0
  AddsAt n k [] = ⊥
  AddsAt zero k (ks ∷ adds) = has k ks ≡ true
  AddsAt (suc n) k (ks ∷ adds) = AddsAt n k adds

  -- A target that is new is added while an entry is handled that is not the last one.
  items_loop-ends :
      (exits : K → Bool) (now interval : ℤ) (place : ℕ) (n : K) (entries : Dict K ℤ)
      (adds : List (List K)) (d : Dict K ℤ)
      → suc place < length entries
      → All (λ x. contains x.0 d ≡ true) entries
      → contains n d ≡ false
      → AddsAt place n adds
      → is_through (items_loop exits now interval entries adds d).1 ≡ false
  unfolding items_loop
  items_loop-ends exits now interval place n [] adds d inside known new here = absurd (omega arith)
  items_loop-ends exits now interval place n (x ∷ []) adds d inside known new here =
      absurd (omega arith)
  items_loop-ends exits now interval place n (x ∷ y ∷ entries) [] d inside known new here =
      absurd here
  items_loop-ends exits now interval zero n ((k, t) ∷ y ∷ entries) (ks ∷ adds) d inside known new
        here =
      let before = last_written now interval k t d in
      rw
        (grown before
          (add_each-grows ks n before here (last_written-absent now interval t k n d known.0 new)))
        (either (exits k && is_due now interval t) _)
    where
      grown :
          (before : Dict K ℤ)
          → length before < length (add_each ks before)
          → nat_beq (length (add_each ks before)) (length before) ≡ false
      grown before h = ground (arith, h)

      either :
          (b : Bool) (x : Dict K ℤ × List K)
          → is_through
              (if◌then◌else◌ {A = (Dict K ℤ × List K) × Ending} b
                (x, sender_exits)
                (x, dict_changed)).1
            ≡ false
      either true x = refl
      either false x = refl
  items_loop-ends exits now interval (suc place) n ((k, t) ∷ y ∷ entries) (ks ∷ adds) d inside known
        new here =
      let before = last_written now interval k t d in
      elim (Bool-cases (exits k && is_due now interval t)) [
        | inl exit ↦ rw exit refl
        | inr goes_on ↦
            rw goes_on (elim (Bool-cases (nat_beq (length (add_each ks before)) (length before))) [
              | inl same ↦ rw same (
                  items_loop-ends exits now interval place n (y ∷ entries) adds (add_each ks before)
                    (omega arith)
                    (subst (λ c. All (λ x. contains x.0 c ≡ true) (y ∷ entries))
                      (sym (add_each-same ks before same))
                      (All-map (λ x. last_written-known now interval t k x.0 d) (y ∷ entries)
                        known.1))
                    (ap (contains n) (add_each-same ks before same)
                      ∙ last_written-absent now interval t k n d known.0 new)
                    here)
              | inr grown ↦ rw grown refl
            ])
      ]

check_threads_started-same :
    (ospid : ℕ) (t : Threads)
    → t.worker_thread ≡ true
    → t.pid ≡ ospid
    → check_threads_started ospid t ≡ (t, false)
unfolding check_threads_started
check_threads_started-same ospid t h k = rw (tests h k) refl
  where
    tests :
        t.worker_thread ≡ true
        → t.pid ≡ ospid
        → (not t.worker_thread || not (nat_beq t.pid ospid)) ≡ false
    tests h k = ground (arith, h, k)

module _ {K : Type 0} ⦃e : Eq K⦄ (ospid : ℕ) (interval : ℤ) where
  -- The thread has ended in the process that started it.
  abbrev pub IsEnded : Process K → Type 0
  IsEnded p = (p.alive ≡ false) × (p.threads.worker_thread ≡ true) × (p.threads.pid ≡ ospid)

  step-IsEnded :
      (s : Step K) (p : Process K)
      → IsEnded p
      → IsEnded (step ospid interval s p).0 × ((step ospid interval s p).1 ≡ [])
  unfolding step
  step-IsEnded (added k) p h =
      rw (check_threads_started-same ospid p.threads h.1 h.2) ((rw h.0 refl, h.1, h.2), refl)
  step-IsEnded (rounded exits now adds) p h = rw h.0 ((refl, h.1, h.2), refl)

  run-IsEnded :
      (ss : List (Step K)) (p : Process K)
      → IsEnded p
      → All (λ calls. calls ≡ []) (run ospid interval ss p)
  unfolding run
  run-IsEnded [] p h = tt
  run-IsEnded (s ∷ ss) p h =
      let (ended, silent) = step-IsEnded s p h in
      (silent, run-IsEnded ss (step ospid interval s p).0 ended)

  contains-all :
      (entries d : Dict K ℤ)
      → All (λ x. contains x.0 d ≡ true) entries
      → (k : K) (t : ℤ) → All (λ x. contains x.0 ((k, t) ∷ d) ≡ true) entries
  contains-all entries d h k t = All-map (λ x c. ground (arith, c)) entries h

  own_keys : (d : Dict K ℤ) → All (λ x. contains x.0 d ≡ true) d
  own_keys [] = tt
  own_keys ((k, t) ∷ d) = (rw (beq_refl k) refl, contains-all d d (own_keys d) k t)

  -- If a target that is new is added while the thread handles a target that is not the last one of
  -- the round, no sender is called any more in this process, whatever the senders raise and whatever
  -- targets are added later.
  pub run-after_added :
      (exits : K → Bool) (now : ℤ) (d : Dict K ℤ) (place : ℕ) (n : K) (adds : List (List K))
      (ss : List (Step K))
      → suc place < length d
      → contains n d ≡ false
      → AddsAt place n adds
      → All
          (λ calls. calls ≡ [])
          (run ospid interval ss
            (step ospid interval (rounded exits now adds) (record {
              targets = d;
              threads = record { worker_thread = true; pid = ospid };
              alive = true;
            })).0)
  unfolding step
  run-after_added exits now d place n adds ss inside new here =
      run-IsEnded ss _ (
        items_loop-ends exits now interval place n d adds d inside (own_keys d) new here,
        refl,
        refl,
      )
