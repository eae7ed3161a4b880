-- ===== src/Client/Worker/Threaded.antt =====
-- client/worker.py: rounds of the thread while other threads add targets.
pub mod Ended
pub mod Undisturbed
use sqlalchemy_collectd.Base.{
  ℕ, Bool, true, false, ◌||◌, not, List, [], ◌∷◌, length, if◌then◌else◌, Eq, nat_beq, ℤ, ◌&&◌,
}
use sqlalchemy_collectd.Base.Dict.{Dict, insert}
use sqlalchemy_collectd.Client.Worker.{
  Threads, check_threads_started, is_due, add_target, Ending, through, dict_changed, sender_exits,
  is_through,
}

module _ {K : Type 0} ⦃e : Eq K⦄ where
  abbrev pub add_each : List K → Dict K ℤ → Dict K ℤ
  add_each [] d = d
  add_each (k ∷ ks) d = add_each ks (add_target k d)

  -- The targets that are added while one entry after the other is handled.
  abbrev pub first : List (List K) → List K
  first [] = []
  first (ks ∷ more) = ks

  abbrev pub others : List (List K) → List (List K)
  others [] = []
  others (ks ∷ more) = more

  -- the time of the call, for a target that is due
  abbrev pub last_written : ℤ → ℤ → K → ℤ → Dict K ℤ → Dict K ℤ
  last_written now interval k last_called d =
      if is_due now interval last_called then insert k now d else d

  -- The `for` loop over `_collection_targets.items()`: the dictionary afterwards, the targets whose
  -- sender was called, and how the loop ends. The senders for which `exits` is true raise what is no
  -- `Exception`, which ends the loop. An OrderedDict whose size has changed raises where the iterator
  -- goes on to a further entry; behind the last entry the iterator just ends.
  unfoldable pub items_loop :
      (K → Bool) → ℤ → ℤ → Dict K ℤ → List (List K) → Dict K ℤ → (Dict K ℤ × List K) × Ending
  items_loop exits now interval [] adds d = ((d, []), through)
  items_loop exits now interval ((k, last_called) ∷ []) adds d = (
    (
      add_each (first adds) (last_written now interval k last_called d),
      if is_due now interval last_called then k ∷ [] else [],
    ),
    if exits k && is_due now interval last_called then sender_exits else through,
  )
  items_loop exits now interval ((k, last_called) ∷ entry ∷ entries) adds d =
      let due = is_due now interval last_called in
      let written = last_written now interval k last_called d in
      let added = add_each (first adds) written in
      let called = if due then k ∷ [] else [] in
      let ((d', calls), ending) =
        items_loop exits now interval (entry ∷ entries) (others adds) added in
      if exits k && due
      then ((added, called), sender_exits)
      else if nat_beq (length added) (length written)
      then ((d', (if due then k ∷ calls else calls)), ending)
      else ((added, called), dict_changed)

-- `_collection_targets`, `_WORKER_THREAD` and `_PID`, and whether the thread is still running
pub record Process (K : Type 0) : Type 0 where
  pub targets : Dict K ℤ
  pub threads : Threads
  pub alive : Bool

-- a call of `add_target`, or a round of the thread at a time, with the senders that raise what is no
-- `Exception` and the targets that are added meanwhile
pub data Step (K : Type 0) : Type 0 where
  added : K → Step K
  rounded : (K → Bool) → ℤ → List (List K) → Step K

module _ {K : Type 0} ⦃e : Eq K⦄ (ospid : ℕ) (interval : ℤ) where
  -- What ends the loop over the entries ends the loop of `_process`, and with it the thread.
  unfoldable pub step : Step K → Process K → Process K × List K
  unfolding add_target check_threads_started items_loop
  step (added k) p =
      let (threads, started) = check_threads_started ospid p.threads in
      (
        record { targets = add_target k p.targets; threads = threads; alive = p.alive || started },
        [],
      )
  step (rounded exits now adds) p =
      let ((d, calls), ending) = items_loop exits now interval p.targets adds p.targets in
      if p.alive then (record p { targets = d; alive = is_through ending }, calls) else (p, [])

  -- the calls of each step
  unfoldable pub run : List (Step K) → Process K → List (List K)
  unfolding step
  run [] p = []
  run (s ∷ ss) p = (step s p).1 ∷ run ss (step s p).0
