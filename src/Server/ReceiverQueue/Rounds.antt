-- ===== src/Server/ReceiverQueue/Rounds.antt =====
-- server/plugin.py: the receiver after any datagrams.
use sqlalchemy_collectd.Base.{
  ℕ, zero, suc, ◌≡◌, refl, ap, ◌∙◌, Option, none, some, List, [], ◌∷◌, ◌++◌, map, length, All,
  Result, ok, raise, stuck, ◌>>=◌,
}
use sqlalchemy_collectd.Base.Dict.{Dict}
use sqlalchemy_collectd.Protocol.Bytes.{Bytes, Text}
use sqlalchemy_collectd.Protocol.Types.{CollectdType}
use sqlalchemy_collectd.Protocol.Values.{Values}
use sqlalchemy_collectd.Protocol.Unpacker.{unpack_bytes}
use sqlalchemy_collectd.Network.Endpoints.{Queue, recvfrom, receive_async}
use sqlalchemy_collectd.Server.Receiver.{Receiver}
use sqlalchemy_collectd.Server.Receiver
use sqlalchemy_collectd.Server.Receiver.Ownership.{receive_each}
use sqlalchemy_collectd.Server.ReceiverQueue.{handled, run_service}

module _ (types : Dict Text CollectdType) where
  -- so many rounds
  unfoldable pub rounds : ℕ → Queue × Receiver → Result (Queue × Receiver)
  rounds zero s = ok s
  rounds (suc n) s = run_service types s >>= rounds n

  -- what a datagram is for the receiver: nothing if it cannot be unpacked
  abbrev pub object_of : Result (Option Values) → List Values
  object_of (ok (some v)) = v ∷ []
  object_of (ok none) = []
  object_of (raise e) = []
  object_of stuck = []

  unfoldable pub objects : List (Bytes × Text) → List Values
  objects [] = []
  objects ((buf, addr) ∷ packets) = object_of (unpack_bytes types buf) ++ objects packets

  run_service-next :
      (packets : Queue) (buf : Bytes) (addr : Text) (r : Receiver)
      → run_service types (some (buf, addr) ∷ packets, r)
        ≡ handled types packets r (unpack_bytes types buf)
  unfolding run_service receive_async recvfrom
  run_service-next packets buf addr r = refl

  handled-receive_each :
      (x : Result (Option Values)) (n : ℕ) (packets : Queue) (os : List Values) (r : Receiver)
      → (x ≡ stuck → ⊥)
      → ((r' : Receiver) → rounds n (packets, r') ≡ ok ([], receive_each os r'))
      → (handled types packets r x >>= rounds n) ≡ ok ([], receive_each (object_of x ++ os) r)
  unfolding receive_each Receiver.receive
  handled-receive_each (ok (some v)) n packets os r h rest = rest (Receiver.receive r (some v)).0
  handled-receive_each (ok none) n packets os r h rest = rest r
  handled-receive_each (raise e) n packets os r h rest = rest r
  handled-receive_each stuck n packets os r h rest = absurd (h refl)

  -- Whatever datagrams came, none with a part that stalls the unpacker: after as many rounds the
  -- receiver is as if it had received the objects of those that can be unpacked, in order; the
  -- others leave no trace.
  pub rounds-receive_each :
      (packets : List (Bytes × Text)) (r : Receiver)
      → All (λ p. unpack_bytes types p.0 ≡ stuck → ⊥) packets
      → rounds (length packets) (map some packets, r) ≡ ok ([], receive_each (objects packets) r)
  unfolding rounds objects receive_each
  rounds-receive_each [] r h = refl
  rounds-receive_each ((buf, addr) ∷ packets) r h =
      ap (λ x. x >>= rounds (length packets)) (run_service-next (map some packets) buf addr r)
      ∙ handled-receive_each (unpack_bytes types buf) (length packets) (map some packets)
          (objects packets) r h.0 (λ r'. rounds-receive_each packets r' h.1)
