-- ===== src/Client/Collector/Handlers.antt =====
-- client/collector.py: each handler keeps the sets of a target in step with its pool.
use sqlalchemy_collectd.Base.{
  ℕ, ◌+◌, ◌≡◌, refl, ◌∙◌, true, false, ◌&&◌, ◌||◌, nat_eq, if◌then◌else◌, length, nat_beq, ok,
  arith,
}
use sqlalchemy_collectd.Base.Sets.{
  mem, discard, add-IsDistinct, discard-IsDistinct, mem-add, mem-discard, length-discard,
}
use sqlalchemy_collectd.Protocol.Bytes.{Text}
use sqlalchemy_collectd.Client.Collector.{
  CollectionTarget, Event, close, close_detached, handle, new,
}
use sqlalchemy_collectd.Client.Collector.Pool.{
  absent, Pool, empty, moved, marked, Step, connects, checks_out, checks_in, checks_in_none,
  invalidates, invalidates_idle, resets, closes_idle, closes_out, detaches, closes_detached,
  is_open, is_idle, is_loose, Tracks,
}

pub Tracks-new : (none_id : ℕ) (name : Text) → Tracks none_id empty (new name)
Tracks-new none_id name = record {
  connections = λ j. refl;
  checkedin = λ j. refl;
  detached = λ j. refl;
  invalidated = λ j. refl;
  none_absent = refl;
  distinct_connections = tt;
  distinct_checkedin = tt;
  distinct_detached = tt;
  counted = omega arith;
}

-- No open connection is `None`.
not_none :
    {none_id : ℕ} {p : Pool} {t : CollectionTarget} (k : ℕ)
    → Tracks none_id p t
    → is_open (p.phase k) ≡ true
    → (nat_beq none_id k ≡ false) × (nat_beq k none_id ≡ false)
not_none {none_id} {p} k s h =
    ground (arith, nat_eq.beq_iff none_id k, nat_eq.beq_iff k none_id, s.none_absent)

-- A connection that the pool has open is forgotten by either way of closing it.
module _ (none_id : ℕ) (p : Pool) (k : ℕ) (t : CollectionTarget) (s : Tracks none_id p t)
    (h : is_open (p.phase k) ≡ true) where
  there : mem k t.connections ≡ true
  there = s.connections k ∙ h

  forgotten_connections :
      (j : ℕ)
      → mem j (discard k t.connections) ≡ is_open (if nat_beq k j then absent else p.phase j)
  forgotten_connections j = ground (arith, mem-discard k j t.connections, s.connections j)

  forgotten_checkedin :
      (j : ℕ)
      → mem j (discard k t.checkedin)
        ≡ (is_idle (if nat_beq k j then absent else p.phase j) || (p.none_in && nat_beq none_id j))
  forgotten_checkedin j =
      ground (arith, mem-discard k j t.checkedin, s.checkedin j, (not_none k s h).0)

  still_absent : is_open (if nat_beq k none_id then absent else p.phase none_id) ≡ false
  still_absent = rw (not_none k s h).1 s.none_absent

  forgotten_detached :
      (j : ℕ) → mem j (discard k t.detached) ≡ is_loose (if nat_beq k j then absent else p.phase j)
  forgotten_detached j = ground (arith, mem-discard k j t.detached, s.detached j)

  forgotten_invalidated :
      (j : ℕ) → mem j (discard k t.invalidated) ≡ (if nat_beq k j then false else p.bad j)
  forgotten_invalidated j = ground (arith, mem-discard k j t.invalidated, s.invalidated j)

  one_less : length (discard k t.connections) + (t.total_disconnects + 1) ≡ t.total_connects
  one_less = ground (arith, length-discard k t.connections s.distinct_connections, there, s.counted)

  Tracks-close :
      Tracks none_id (marked (moved p k absent) k false) (handle (close k) t).0
      × ((handle (close k) t).1 ≡ ok tt)
  unfolding handle
  Tracks-close = rw there (
    record {
      connections = forgotten_connections;
      checkedin = forgotten_checkedin;
      detached = forgotten_detached;
      invalidated = forgotten_invalidated;
      none_absent = still_absent;
      distinct_connections = discard-IsDistinct k t.connections s.distinct_connections;
      distinct_checkedin = discard-IsDistinct k t.checkedin s.distinct_checkedin;
      distinct_detached = discard-IsDistinct k t.detached s.distinct_detached;
      counted = one_less;
    },
    refl,
  )

  Tracks-close_detached :
      Tracks none_id (marked (moved p k absent) k false) (handle (close_detached k) t).0
      × ((handle (close_detached k) t).1 ≡ ok tt)
  unfolding handle
  Tracks-close_detached = rw there (
    record {
      connections = forgotten_connections;
      checkedin = forgotten_checkedin;
      detached = forgotten_detached;
      invalidated = forgotten_invalidated;
      none_absent = still_absent;
      distinct_connections = discard-IsDistinct k t.connections s.distinct_connections;
      distinct_checkedin = discard-IsDistinct k t.checkedin s.distinct_checkedin;
      distinct_detached = discard-IsDistinct k t.detached s.distinct_detached;
      counted = one_less;
    },
    refl,
  )

-- One event: the handler does not raise, and the target goes on to track the pool.
pub Tracks-handle :
    {none_id : ℕ} {p q : Pool} {e : Event} (t : CollectionTarget)
    → Step none_id p e q
    → Tracks none_id p t
    → Tracks none_id q (handle e t).0 × ((handle e t).1 ≡ ok tt)
unfolding handle
Tracks-handle {none_id} t (connects p k h other) s = (
  record {
    connections = λ j. ground (arith, mem-add k j t.connections, s.connections j);
    checkedin = λ j. ground (arith, mem-add k j t.checkedin, s.checkedin j);
    detached = λ j. ground (arith, s.detached j, h);
    invalidated = s.invalidated;
    none_absent =
        ground (arith, nat_eq.beq_iff none_id k, nat_eq.beq_iff k none_id, other, s.none_absent);
    distinct_connections = add-IsDistinct k t.connections s.distinct_connections;
    distinct_checkedin = add-IsDistinct k t.checkedin s.distinct_checkedin;
    distinct_detached = s.distinct_detached;
    counted = ground (arith, s.connections k, h, s.counted);
  },
  refl,
)
Tracks-handle {none_id} t (checks_out p k h) s = rw (s.checkedin k) (
    rw h (
      record {
        connections = λ j. ground (arith, s.connections j, h);
        checkedin = λ j.
            ground
              (arith, mem-discard k j t.checkedin, s.checkedin j, (not_none k s (rw h refl)).0);
        detached = λ j. ground (arith, s.detached j, h);
        invalidated = s.invalidated;
        none_absent = rw (not_none k s (rw h refl)).1 s.none_absent;
        distinct_connections = s.distinct_connections;
        distinct_checkedin = discard-IsDistinct k t.checkedin s.distinct_checkedin;
        distinct_detached = s.distinct_detached;
        counted = s.counted;
      },
      refl,
    ))
Tracks-handle {none_id} t (checks_in p k h) s = (
  record {
    connections = λ j. ground (arith, s.connections j, h);
    checkedin =
        λ j. ground (arith, mem-add k j t.checkedin, s.checkedin j, (not_none k s (rw h refl)).0);
    detached = λ j. ground (arith, s.detached j, h);
    invalidated = s.invalidated;
    none_absent = rw (not_none k s (rw h refl)).1 s.none_absent;
    distinct_connections = s.distinct_connections;
    distinct_checkedin = add-IsDistinct k t.checkedin s.distinct_checkedin;
    distinct_detached = s.distinct_detached;
    counted = s.counted;
  },
  refl,
)
Tracks-handle {none_id} t (checks_in_none p) s = (
  record {
    connections = s.connections;
    checkedin = λ j. ground (arith, mem-add none_id j t.checkedin, s.checkedin j);
    detached = s.detached;
    invalidated = s.invalidated;
    none_absent = s.none_absent;
    distinct_connections = s.distinct_connections;
    distinct_checkedin = add-IsDistinct none_id t.checkedin s.distinct_checkedin;
    distinct_detached = s.distinct_detached;
    counted = s.counted;
  },
  refl,
)
Tracks-handle {none_id} t (invalidates p k h) s = (
  record {
    connections = s.connections;
    checkedin = s.checkedin;
    detached = s.detached;
    invalidated = λ j. ground (arith, mem-add k j t.invalidated, s.invalidated j);
    none_absent = s.none_absent;
    distinct_connections = s.distinct_connections;
    distinct_checkedin = s.distinct_checkedin;
    distinct_detached = s.distinct_detached;
    counted = s.counted;
  },
  refl,
)
Tracks-handle {none_id} t (invalidates_idle p k h) s = (
  record {
    connections = s.connections;
    checkedin = s.checkedin;
    detached = s.detached;
    invalidated = λ j. ground (arith, mem-add k j t.invalidated, s.invalidated j);
    none_absent = s.none_absent;
    distinct_connections = s.distinct_connections;
    distinct_checkedin = s.distinct_checkedin;
    distinct_detached = s.distinct_detached;
    counted = s.counted;
  },
  refl,
)
Tracks-handle {none_id} t (resets p k) s = (
  record {
    connections = s.connections;
    checkedin = s.checkedin;
    detached = s.detached;
    invalidated = s.invalidated;
    none_absent = s.none_absent;
    distinct_connections = s.distinct_connections;
    distinct_checkedin = s.distinct_checkedin;
    distinct_detached = s.distinct_detached;
    counted = s.counted;
  },
  refl,
)
Tracks-handle {none_id} t (detaches p k h) s = (
  record {
    connections = λ j. ground (arith, s.connections j, h);
    checkedin = λ j. ground (arith, s.checkedin j, h);
    detached = λ j. ground (arith, mem-add k j t.detached, s.detached j);
    invalidated = s.invalidated;
    none_absent = rw (not_none k s (rw h refl)).1 s.none_absent;
    distinct_connections = s.distinct_connections;
    distinct_checkedin = s.distinct_checkedin;
    distinct_detached = add-IsDistinct k t.detached s.distinct_detached;
    counted = s.counted;
  },
  refl,
)
Tracks-handle {none_id} t (closes_idle p k h) s = Tracks-close none_id p k t s (rw h refl)
Tracks-handle {none_id} t (closes_out p k h) s = Tracks-close none_id p k t s (rw h refl)
Tracks-handle {none_id} t (closes_detached p k h) s =
    Tracks-close_detached none_id p k t s (rw h refl)
