-- ===== src/Connmon/Forwarder/Order.antt =====
-- connmon/plugin.py: what is written is taken once, and in its order.
use sqlalchemy_collectd.Base.{
  length, ◌≤◌, arith, ◌≡◌, refl, ap, sym, ◌∙◌, inl, inr, true, false, Bool-cases, Option, none,
  some, List, [], ◌∷◌, ◌++◌, map, if◌then◌else◌, nat_eq, list_eq, option_eq, ◌==◌,
}
use mathlib.Core.List.{append_assoc, append-nil}
use sqlalchemy_collectd.Base.Dict.{Dict}
use sqlalchemy_collectd.Number.{Floats}
use sqlalchemy_collectd.Protocol.Bytes.{Text}
use sqlalchemy_collectd.Protocol.Types.{CollectdType}
use sqlalchemy_collectd.Protocol.Values.{Slots, Values, from_collectd_values}
use sqlalchemy_collectd.CollectdTypes.{collectd_plugin_name}
use sqlalchemy_collectd.Network.Forwarding.{Outgoing, Moment}
use sqlalchemy_collectd.Connmon.Forwarder.{
  SenderQueue, send, write, send_to_each, run_service, hear, Event, written, heard, served,
  and_served, run,
}

-- the objects of the plugin's own name, among those that collectd hands over
unfoldable pub accepted : List Event → List Values
accepted [] = []
accepted (written cd ∷ events) =
    if cd.plugin == some collectd_plugin_name
    then from_collectd_values cd ∷ accepted events
    else accepted events
accepted (heard datagram addr now ∷ events) = accepted events
accepted (served at ∷ events) = accepted events

abbrev pub taken : List (Values × List Outgoing) → List Values
taken = map (λ p. p.0)

accepted-rounds :
    (events : List Event) (moments : List Moment)
    → accepted (events ++ map served moments) ≡ accepted events
unfolding accepted
accepted-rounds [] [] = refl
accepted-rounds [] (at ∷ moments) = accepted-rounds [] moments
accepted-rounds (written cd ∷ events) moments = rw (accepted-rounds events moments) refl
accepted-rounds (heard datagram addr now ∷ events) moments = accepted-rounds events moments
accepted-rounds (served at ∷ events) moments = accepted-rounds events moments

left_queue :
    (sent : Option (Values × List Outgoing)) (rest : SenderQueue × List (Values × List Outgoing))
    → (and_served sent rest).0 ≡ rest.0
left_queue none rest = refl
left_queue (some s) rest = refl

write-own :
    (cd : Slots) (q : SenderQueue)
    → (cd.plugin == some collectd_plugin_name) ≡ true
    → q.is_running ≡ true
    → write cd q ≡ record q { queue = q.queue ++ from_collectd_values cd ∷ [] }
unfolding write send
write-own cd q own on = rw (write, own) (rw on refl)

write-other :
    (cd : Slots) (q : SenderQueue)
    → (cd.plugin == some collectd_plugin_name) ≡ false
    → write cd q ≡ q
unfolding write
write-other cd q other = rw (write, other) refl

module _ (fl : Floats) (types : Dict Text CollectdType) (at : Moment) (q : SenderQueue) where
  run_service-empty : q.queue ≡ [] → run_service fl types at q ≡ (q, none)
  unfolding run_service
  run_service-empty h = rw (run_service, h) (ap (λ vs. (record q { queue = vs }, none)) h)

  -- what is left of the queue, and what goes out, for the first message
  abbrev after : Values → List Values → SenderQueue × Option (Values × List Outgoing)
  after v vs =
      let ((senders, outs), r) = send_to_each fl types at v q.senders in
      (record q { queue = vs; senders = senders }, some (v, outs))

  run_service-next :
      (v : Values) (vs : List Values) → q.queue ≡ v ∷ vs → run_service fl types at q ≡ after v vs
  unfolding run_service
  run_service-next v vs h = rw (run_service, h) refl

module _ (fl : Floats) (types : Dict Text CollectdType) where
  -- what was taken and what still waits
  abbrev all : SenderQueue × List (Values × List Outgoing) → List Values
  all (q, sent) = taken sent ++ q.queue

  served-in_order :
      (at : Moment) (events : List Event) (q : SenderQueue) (vs : List Values)
      → ((p : SenderQueue)
          → p.is_running ≡ true
          → all (run fl types events p) ≡ p.queue ++ accepted events)
      → q.is_running ≡ true
      → q.queue ≡ vs
      → all (run fl types (served at ∷ events) q) ≡ vs ++ accepted events
  unfolding run
  served-in_order at events q [] rest on h =
      ap (λ p. all (and_served p.1 (run fl types events p.0))) (run_service-empty fl types at q h)
      ∙ rest q on
      ∙ ap (λ vs. vs ++ accepted events) h
  served-in_order at events q (v ∷ vs) rest on h =
      ap (λ p. all (and_served p.1 (run fl types events p.0)))
        (run_service-next fl types at q v vs h)
      ∙ ap (◌∷◌ v) (rest (after fl types at q v vs).0 on)

  -- A running queue gives out what collectd has written under the plugin's own name, each object once
  -- and in its order, whatever the senders raise and whenever HELOs and rounds come between: what was
  -- taken and what still waits is what waited at first and what was accepted since.
  pub run-in_order :
      (events : List Event) (q : SenderQueue)
      → q.is_running ≡ true
      → taken (run fl types events q).1 ++ (run fl types events q).0.queue
        ≡ q.queue ++ accepted events
  unfolding run accepted
  run-in_order [] q on = sym (append-nil q.queue)
  run-in_order (written cd ∷ events) q on =
      let v = from_collectd_values cd in
      elim (Bool-cases (cd.plugin == some collectd_plugin_name)) [
        | inl own ↦
            ap (λ p. all (run fl types events p)) (write-own cd q own on)
            ∙ run-in_order events (record q { queue = q.queue ++ v ∷ [] }) on
            ∙ append_assoc q.queue (v ∷ []) (accepted events)
            ∙ rw own refl
        | inr other ↦
            ap (λ p. all (run fl types events p)) (write-other cd q other)
            ∙ run-in_order events q on
            ∙ rw other refl
      ]
  run-in_order (heard datagram addr now ∷ events) q on =
      run-in_order events (record q { senders = hear datagram addr now q.senders }) on
  run-in_order (served at ∷ events) q on =
      served-in_order at events q q.queue (run-in_order events) on refl

  run-append :
      (events more : List Event) (q : SenderQueue)
      → (run fl types (events ++ more) q).0 ≡ (run fl types more (run fl types events q).0).0
  unfolding run
  run-append [] more q = refl
  run-append (written cd ∷ events) more q = run-append events more (write cd q)
  run-append (heard datagram addr now ∷ events) more q =
      run-append events more (record q { senders = hear datagram addr now q.senders })
  run-append (served at ∷ events) more q =
      let (q', sent) = run_service fl types at q in
      left_queue sent (run fl types (events ++ more) q')
      ∙ run-append events more q'
      ∙ ap (λ p. (run fl types more p).0) (sym (left_queue sent (run fl types events q')))

  -- As many rounds as messages that wait leave none.
  rounds-empty :
      (moments : List Moment) (q : SenderQueue) (vs : List Values)
      → q.queue ≡ vs
      → length vs ≤ length moments
      → (run fl types (map served moments) q).0.queue ≡ []
  unfolding run
  rounds-empty [] q [] e h = e
  rounds-empty [] q (v ∷ vs) e h = absurd (omega arith)
  rounds-empty (at ∷ moments) q [] e h =
      ap (λ p. (and_served p.1 (run fl types (map served moments) p.0)).0.queue)
        (run_service-empty fl types at q e)
      ∙ rounds-empty moments q [] e (omega arith)
  rounds-empty (at ∷ moments) q (v ∷ vs) e h =
      ap (λ p. (and_served p.1 (run fl types (map served moments) p.0)).0.queue)
        (run_service-next fl types at q v vs e)
      ∙ rounds-empty moments (after fl types at q v vs).0 vs refl (omega arith)

  -- Every message that a running queue has accepted is taken in the end: after any events and then as
  -- many rounds as messages wait, what was taken is what waited at first and what was accepted since,
  -- in order, and nothing waits.
  pub run-taken :
      (events : List Event) (moments : List Moment) (q : SenderQueue)
      → q.is_running ≡ true
      → length (run fl types events q).0.queue ≤ length moments
      → (taken (run fl types (events ++ map served moments) q).1 ≡ q.queue ++ accepted events)
        × ((run fl types (events ++ map served moments) q).0.queue ≡ [])
  run-taken events moments q on enough =
      let rounds = map served moments in
      let empty : (run fl types (events ++ rounds) q).0.queue ≡ [] =
        ap (λ p. p.queue) (run-append events rounds q)
        ∙ rounds-empty moments (run fl types events q).0 _ refl enough in
      (
        sym (append-nil (taken (run fl types (events ++ rounds) q).1))
            ∙ ap (λ vs. taken (run fl types (events ++ rounds) q).1 ++ vs) (sym empty)
            ∙ run-in_order (events ++ rounds) q on
            ∙ ap (λ vs. q.queue ++ vs) (accepted-rounds events moments),
        empty,
      )
