-- ===== src/Network/Listeners.antt =====
-- networking.py: the receivers that `UDPServerSender` sends to. A receiver asks with a datagram HELO.
pub mod Reached
use sqlalchemy_collectd.Base.{
  Bool, List, [], ◌∷◌, if◌then◌else◌, Eq, nat_eq, list_eq, ◌==◌, ℤ, pos, ◌-ℤ◌, ltb_ℤ,
}
use sqlalchemy_collectd.Base.Dict.{Dict, insert, remove}
use sqlalchemy_collectd.Protocol.Bytes.{Bytes}
use sqlalchemy_collectd.Protocol.Values.{of_seconds}
use sqlalchemy_collectd.CollectdTypes.{text}

abbrev pub is_expired : ℤ → ℤ → Bool
is_expired now ts = ltb_ℤ (of_seconds (pos 30)) (now -ℤ ts)

module _ {A : Type 0} ⦃e : Eq A⦄ where
  -- The loop over `list(self.addrs.items())`, which takes entries out of `self.addrs`: the addresses
  -- that the transport is given the message for, and what `self.addrs` becomes. `connected` says that the
  -- transport is not None.
  unfoldable pub send_loop : ℤ → Bool → Dict A ℤ → Dict A ℤ → List A × Dict A ℤ
  send_loop now connected [] addrs = ([], addrs)
  send_loop now connected ((addr, ts) ∷ items) addrs =
      let popped = send_loop now connected items (remove addr addrs) in
      let rest = send_loop now connected items addrs in
      if is_expired now ts then popped else ((if connected then addr ∷ rest.0 else rest.0), rest.1)

  unfoldable pub send_to_all : ℤ → Bool → Dict A ℤ → List A × Dict A ℤ
  unfolding send_loop
  send_to_all now connected addrs = send_loop now connected addrs addrs

  unfoldable pub datagram_received : Bytes → A → ℤ → Dict A ℤ → Dict A ℤ
  datagram_received datagram addr now addrs =
      if datagram == text "HELO" then insert addr now addrs else addrs

-- What the protocol object is called with, and when.
pub data Call (A : Type 0) : Type 0 where
  received : Bytes → A → ℤ → Call A
  sent : Bool → ℤ → Call A

module _ {A : Type 0} ⦃e : Eq A⦄ where
  unfoldable pub step : Call A → Dict A ℤ → Dict A ℤ
  unfolding send_to_all datagram_received
  step (received datagram addr now) addrs = datagram_received datagram addr now addrs
  step (sent connected now) addrs = (send_to_all now connected addrs).1

  unfoldable pub run : List (Call A) → Dict A ℤ → Dict A ℤ
  unfolding step
  run [] addrs = addrs
  run (c ∷ cs) addrs = run cs (step c addrs)
