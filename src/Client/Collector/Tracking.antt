-- ===== src/Client/Collector/Tracking.antt =====
-- What a target shows under the events of a connection pool that follows its own protocol.
use sqlalchemy_collectd.Base.{
  ℕ, ◌+◌, ◌≡◌, refl, ap, ◌∙◌, false, not, ◌&&◌, nat_eq, beq_refl, List, [], ◌∷◌, if◌then◌else◌,
  length, ok, arith,
}
use sqlalchemy_collectd.Base.Sets.{
  mem, discard, difference, IsDistinct, discard-IsDistinct, difference-IsDistinct, mem-discard,
  mem-difference, length-discard, length-difference,
}
use sqlalchemy_collectd.Protocol.Bytes.{Text}
use sqlalchemy_collectd.Client.Collector.{
  CollectionTarget, Event, handle, new, checkedout, num_checkedout, num_checkedin, num_detached,
  num_connections,
}
use sqlalchemy_collectd.Client.Collector.Pool.{
  Pool, empty, Step, is_out, Tracks, Run, start, next, after,
}
use sqlalchemy_collectd.Client.Collector.Handlers.{Tracks-new, Tracks-handle}

-- After the events of a pool, a new target holds each open connection, shows as checked in those in
-- the pool, and `id(None)` once there was a checkin with `None`, as detached those taken out of the
-- pool and as invalidated those that were invalidated and are not closed; and the connects less the
-- disconnects are the connections.
pub Run-Tracks :
    (name : Text) {none_id : ℕ} {es : List Event} {q : Pool}
    → Run none_id empty es q
    → Tracks none_id q (after es (new name))
Run-Tracks name {none_id} start = Tracks-new none_id name
Run-Tracks name (next {es = es} e r st) =
    (Tracks-handle (after es (new name)) st (Run-Tracks name r)).0

-- Along such a history no handler raises.
pub Run-returns :
    (name : Text) {none_id : ℕ} {es : List Event} {q r : Pool} (e : Event)
    → Run none_id empty es q
    → Step none_id q e r
    → (handle e (after es (new name))).1 ≡ ok tt
Run-returns name {es = es} e r st = (Tracks-handle (after es (new name)) st (Run-Tracks name r)).1

-- The connections that count as checked out are those in use that were not invalidated.
checkedout-Tracks :
    {none_id : ℕ} {p : Pool} {t : CollectionTarget} (j : ℕ)
    → Tracks none_id p t
    → mem j (checkedout t) ≡ (is_out (p.phase j) && not (p.bad j))
checkedout-Tracks {none_id} {p} {t} j s = ground (
  arith,
  nat_eq.beq_iff none_id j,
  s.none_absent,
  mem-difference j (difference (difference t.connections t.detached) t.invalidated) t.checkedin,
  mem-difference j (difference t.connections t.detached) t.invalidated,
  mem-difference j t.connections t.detached,
  s.connections j,
  s.checkedin j,
  s.detached j,
  s.invalidated j,
)

no_members : (s : List ℕ) → ((j : ℕ) → mem j s ≡ false) → s ≡ []
no_members [] h = refl
no_members (k ∷ s) h = absurd (ground (arith, h k))

difference-nil : (a : List ℕ) → difference a [] ≡ a
difference-nil [] = refl
difference-nil (j ∷ a) = ap (◌∷◌ j) (difference-nil a)

-- What is not in a set can go out of what is taken away from it.
difference-discard :
    (k : ℕ) (a s : List ℕ) → mem k a ≡ false → difference a (discard k s) ≡ difference a s
difference-discard k [] s h = refl
difference-discard k (j ∷ a) s h =
    ground
      (arith, nat_eq.beq_iff j k, nat_eq.beq_iff k j, mem-discard k j s, difference-discard k a s)

-- The sum of the three counts, where no connection is invalidated.
sum-Tracks :
    {none_id : ℕ} {p : Pool} (t : CollectionTarget)
    → Tracks none_id p t
    → t.invalidated ≡ []
    → num_checkedout t + num_checkedin t + num_detached t
      ≡ num_connections t + (if p.none_in then 1 else 0)
sum-Tracks {none_id} {p} t s e = omega (
  arith,
  ap (λ l. length (difference (difference (difference t.connections t.detached) l) t.checkedin)) e,
  ap (λ l. length (difference l t.checkedin))
      (difference-nil (difference t.connections t.detached)),
  ap length (difference-discard none_id used t.checkedin no_use),
  length-difference t.connections t.detached s.distinct_connections s.distinct_detached
      (λ j m. ground (arith, s.detached j, s.connections j)),
  length-difference used (discard none_id t.checkedin)
      (difference-IsDistinct t.connections t.detached s.distinct_connections)
      (discard-IsDistinct none_id t.checkedin s.distinct_checkedin)
      (λ j m. ground (
        arith,
        mem-discard none_id j t.checkedin,
        s.detached j,
        s.connections j,
        s.checkedin j,
        mem-difference j t.connections t.detached,
      )),
  counted,
)
  where
    used : List ℕ
    used = difference t.connections t.detached

    no_use : mem none_id used ≡ false
    no_use = ground (
      arith,
      mem-difference none_id t.connections t.detached,
      s.connections none_id,
      s.none_absent,
    )

    counted :
        length t.checkedin ≡ length (discard none_id t.checkedin) + (if p.none_in then 1 else 0)
    counted = ground (
      arith,
      length-discard none_id t.checkedin s.distinct_checkedin,
      s.checkedin none_id,
      s.none_absent,
      beq_refl none_id,
    )

-- After a pool's history `num_checkedout` counts each connection that is in use and is not
-- invalidated, once. If no connection is invalidated then, the checked out, the checked in and the
-- detached connections add up to the connections, and to one more if there was a checkin with `None`.
pub num_checkedout-Run :
    (name : Text) {none_id : ℕ} {es : List Event} {q : Pool}
    → Run none_id empty es q
    → IsDistinct (checkedout (after es (new name)))
      × ((j : ℕ) → mem j (checkedout (after es (new name))) ≡ (is_out (q.phase j) && not (q.bad j)))
      × (((j : ℕ) → q.bad j ≡ false)
          → num_checkedout (after es (new name))
              + num_checkedin (after es (new name))
              + num_detached (after es (new name))
            ≡ num_connections (after es (new name)) + (if q.none_in then 1 else 0))
num_checkedout-Run name {es = es} {q} r =
    let t = after es (new name) in
    let s = Run-Tracks name r in
    (
      difference-IsDistinct (difference (difference t.connections t.detached) t.invalidated)
          t.checkedin
          (difference-IsDistinct (difference t.connections t.detached) t.invalidated
            (difference-IsDistinct t.connections t.detached s.distinct_connections)),
      (λ j. checkedout-Tracks j s),
      λ clean. sum-Tracks t s (no_members t.invalidated (λ j. s.invalidated j ∙ clean j)),
    )
