-- ===== src/Client/Worker.antt =====
-- client/worker.py: the thread that sends each target's statistics at its interval.
pub mod Rate
pub mod Threaded
use sqlalchemy_collectd.Base.{
  ℕ, Bool, true, false, ◌||◌, not, List, [], ◌∷◌, if◌then◌else◌, Eq, nat_beq, ℤ, pos, ◌-ℤ◌, ltb_ℤ,
}
use sqlalchemy_collectd.Base.Dict.{Dict, contains, insert}
use sqlalchemy_collectd.Protocol.Values.{of_seconds}

-- `_WORKER_THREAD` and `_PID`
pub record Threads : Type 0 where
  pub worker_thread : Bool
  pub pid : ℕ

-- The second part says whether a thread was started. A forked process has no thread of its own yet.
unfoldable pub check_threads_started : ℕ → Threads → Threads × Bool
check_threads_started ospid s =
    if not s.worker_thread || not (nat_beq s.pid ospid)
    then (record { worker_thread = true; pid = ospid }, true)
    else (s, false)

abbrev pub is_due : ℤ → ℤ → ℤ → Bool
is_due now interval last_called = ltb_ℤ (of_seconds interval) (now -ℤ last_called)

-- How the `for` loop of a round ends: after the last entry, by the RuntimeError of an OrderedDict that
-- has changed, or by an exception of a sender that is no `Exception`, such as a SystemExit.
pub data Ending : Type 0 where
  through dict_changed sender_exits : Ending

abbrev pub is_through : Ending → Bool
is_through through = true
is_through dict_changed = false
is_through sender_exits = false

module _ {K : Type 0} (exits : K → Bool) where
  -- One round of the loop of `_process`: the times written, the targets whose sender is called, in
  -- order, and how the round ends. An exception of a sender is logged, and the round goes on. The
  -- senders for which `exits` is true raise what is no `Exception`: it ends the loop over the entries
  -- and the `while` loop.
  unfoldable pub round : ℤ → ℤ → Dict K ℤ → (Dict K ℤ × List K) × Ending
  round now interval [] = (([], []), through)
  round now interval ((k, last_called) ∷ d) =
      let ((d', calls), ending) = round now interval d in
      if is_due now interval last_called
      then if exits k
        then (((k, now) ∷ d, k ∷ []), sender_exits)
        else (((k, now) ∷ d', k ∷ calls), ending)
      else (((k, last_called) ∷ d', calls), ending)

module _ {K : Type 0} ⦃e : Eq K⦄ where
  -- a new target was last called at time 0
  unfoldable pub add_target : K → Dict K ℤ → Dict K ℤ
  add_target k d = if contains k d then d else insert k (pos 0) d
