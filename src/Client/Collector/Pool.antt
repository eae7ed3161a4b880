-- ===== src/Client/Collector/Pool.antt =====
-- client/collector.py: the events that a connection pool reports, and what the sets of a target should
-- hold after them.
use sqlalchemy_collectd.Base.{
  ℕ, ◌+◌, ◌≡◌, Bool, true, false, ◌&&◌, ◌||◌, nat_eq, List, [], ◌∷◌, if◌then◌else◌, nat_beq,
}
use sqlalchemy_collectd.Base.Sets.{mem, IsDistinct}
use sqlalchemy_collectd.Client.Collector.{
  CollectionTarget, Event, connect, checkout, checkin, invalidate, reset, close, detach,
  close_detached, handle, num_connections,
}

-- Where a connection of the pool is: not open, in the pool, in use, or taken out of the pool.
pub data Phase : Type 0 where
  absent idle out loose : Phase

-- The pool as its events describe it: each connection's phase, whether it was invalidated, and whether
-- there was a checkin with `None` for the connection.
pub record Pool : Type 0 where
  pub phase : ℕ → Phase
  pub bad : ℕ → Bool
  pub none_in : Bool

abbrev pub empty : Pool
empty = record { phase = λ k. absent; bad = λ k. false; none_in = false }

abbrev pub moved : Pool → ℕ → Phase → Pool
moved p k to = record p { phase = λ j. if nat_beq k j then to else p.phase j }

abbrev pub marked : Pool → ℕ → Bool → Pool
marked p k b = record p { bad = λ j. if nat_beq k j then b else p.bad j }

-- The order in which a pool reports what happens to a connection. `none_id` is `id(None)`, which is the
-- id of no connection. A connection is invalidated in use, or in the pool by a ping before a checkout;
-- one that was invalidated in use and closed is checked in later as `None`.
pub data Step (none_id : ℕ) : Pool → Event → Pool → Type 0 where
  connects :
      (p : Pool) (k : ℕ)
      → p.phase k ≡ absent
      → nat_beq none_id k ≡ false
      → Step none_id p (connect k) (moved p k idle)
  checks_out : (p : Pool) (k : ℕ) → p.phase k ≡ idle → Step none_id p (checkout k) (moved p k out)
  checks_in : (p : Pool) (k : ℕ) → p.phase k ≡ out → Step none_id p (checkin k) (moved p k idle)
  checks_in_none : (p : Pool) → Step none_id p (checkin none_id) (record p { none_in = true })
  invalidates :
      (p : Pool) (k : ℕ) → p.phase k ≡ out → Step none_id p (invalidate k) (marked p k true)
  invalidates_idle :
      (p : Pool) (k : ℕ) → p.phase k ≡ idle → Step none_id p (invalidate k) (marked p k true)
  resets : (p : Pool) (k : ℕ) → Step none_id p (reset k) p
  closes_idle :
      (p : Pool) (k : ℕ)
      → p.phase k ≡ idle
      → Step none_id p (close k) (marked (moved p k absent) k false)
  closes_out :
      (p : Pool) (k : ℕ)
      → p.phase k ≡ out
      → Step none_id p (close k) (marked (moved p k absent) k false)
  detaches : (p : Pool) (k : ℕ) → p.phase k ≡ out → Step none_id p (detach k) (moved p k loose)
  closes_detached :
      (p : Pool) (k : ℕ)
      → p.phase k ≡ loose
      → Step none_id p (close_detached k) (marked (moved p k absent) k false)

abbrev pub is_open : Phase → Bool
is_open absent = false
is_open idle = true
is_open out = true
is_open loose = true

abbrev pub is_idle : Phase → Bool
is_idle absent = false
is_idle idle = true
is_idle out = false
is_idle loose = false

abbrev pub is_out : Phase → Bool
is_out absent = false
is_out idle = false
is_out out = true
is_out loose = false

abbrev pub is_loose : Phase → Bool
is_loose absent = false
is_loose idle = false
is_loose out = false
is_loose loose = true

-- The sets of a target against the pool: the target has a connection where the pool has it, and
-- `id(None)` among those checked in from the first checkin with `None` on.
pub record Tracks (none_id : ℕ) (p : Pool) (t : CollectionTarget) : Type 0 where
  pub connections : (j : ℕ) → mem j t.connections ≡ is_open (p.phase j)
  pub checkedin :
      (j : ℕ) → mem j t.checkedin ≡ (is_idle (p.phase j) || (p.none_in && nat_beq none_id j))
  pub detached : (j : ℕ) → mem j t.detached ≡ is_loose (p.phase j)
  pub invalidated : (j : ℕ) → mem j t.invalidated ≡ p.bad j
  pub none_absent : is_open (p.phase none_id) ≡ false
  pub distinct_connections : IsDistinct t.connections
  pub distinct_checkedin : IsDistinct t.checkedin
  pub distinct_detached : IsDistinct t.detached
  pub counted : num_connections t + t.total_disconnects ≡ t.total_connects

-- The pool's history, and the events that it reported, in order.
pub data Run (none_id : ℕ) (p : Pool) : List Event → Pool → Type 0 where
  start : Run none_id p [] p
  next :
      {es : List Event} {q r : Pool} (e : Event)
      → Run none_id p es q
      → Step none_id q e r
      → Run none_id p (e ∷ es) r

-- the target after the events, the last of which stands first
abbrev pub after : List Event → CollectionTarget → CollectionTarget
after [] t = t
after (e ∷ es) t = (handle e (after es t)).0
