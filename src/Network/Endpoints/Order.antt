-- ===== src/Network/Endpoints/Order.antt =====
-- networking.py: a receiver is given the messages in their order, and then the end.
use sqlalchemy_collectd.Base.{
  ℕ, suc, zero, length, Option, none, some, List, [], ◌∷◌, ◌++◌, ◌≡◌, refl, ap, sym, ◌∙◌, map,
  Result, raise, io_error,
}
use mathlib.Core.List.{append_assoc, append-nil}
use sqlalchemy_collectd.Base.Dict.{Dict}
use sqlalchemy_collectd.Protocol.Bytes.{Bytes, Text}
use sqlalchemy_collectd.Protocol.Types.{CollectdType}
use sqlalchemy_collectd.Protocol.Values.{Values}
use sqlalchemy_collectd.Protocol.Unpacker.{unpack_bytes}
use sqlalchemy_collectd.Network.Endpoints.{
  Arrival, datagram_received, connection_lost, Queue, entry, put_nowait, put_each, recvfrom,
  receive_async,
}

put_each-append : (q : Queue) (xs : List Arrival) → put_each q xs ≡ q ++ map entry xs
unfolding put_each put_nowait
put_each-append q [] = sym (append-nil q)
put_each-append q (x ∷ xs) =
    put_each-append (q ++ entry x ∷ []) xs ∙ append_assoc q (entry x ∷ []) (map entry xs)

module _ (types : Dict Text CollectdType) where
  -- as many calls of `receive_async`
  unfoldable pub receive_each : ℕ → Queue → List (Option (Result (Option Values)))
  receive_each zero q = []
  receive_each (suc n) q = (receive_async types q).1 ∷ receive_each n (receive_async types q).0

  abbrev pub arrival : Bytes × Text → Arrival
  arrival (buf, addr) = datagram_received buf addr

  lost :
      (packets : List (Bytes × Text))
      → receive_each
          (suc (length packets))
          (map entry (map arrival packets ++ connection_lost ∷ []))
        ≡ map (λ p. some (unpack_bytes types p.0)) packets ++ some (raise io_error) ∷ []
  unfolding receive_each receive_async recvfrom
  lost [] = refl
  lost (p ∷ packets) = ap (◌∷◌ (some (unpack_bytes types p.0))) (lost packets)

  waits :
      (packets : List (Bytes × Text))
      → receive_each (suc (length packets)) (map entry (map arrival packets))
        ≡ map (λ p. some (unpack_bytes types p.0)) packets ++ none ∷ []
  unfolding receive_each receive_async recvfrom
  waits [] = refl
  waits (p ∷ packets) = ap (◌∷◌ (some (unpack_bytes types p.0))) (waits packets)

  -- The calls of `receive_async` are given what the packets unpack to, errors included, one by one in
  -- the order in which they came; the call after the last one raises an IOError if the connection was
  -- lost then, and waits otherwise.
  pub receive_each-put_each :
      (packets : List (Bytes × Text))
      → (receive_each
            (suc (length packets))
            (put_each [] (map arrival packets ++ connection_lost ∷ []))
          ≡ map (λ p. some (unpack_bytes types p.0)) packets ++ some (raise io_error) ∷ [])
        × (receive_each (suc (length packets)) (put_each [] (map arrival packets))
            ≡ map (λ p. some (unpack_bytes types p.0)) packets ++ none ∷ [])
  receive_each-put_each packets = (
    rw (put_each-append [] (map arrival packets ++ connection_lost ∷ [])) (lost packets),
    rw (put_each-append [] (map arrival packets)) (waits packets),
  )
