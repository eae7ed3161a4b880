-- ===== src/Client/Plugin/Start.antt =====
-- client/plugin.py: what the engines of a process share.
use sqlalchemy_collectd.Base.{
  ℕ, ◌≡◌, refl, ap, sym, ◌∙◌, Bool, true, false, ◌||◌, inl, inr, Bool-cases, Option-cases, Option,
  none, some, List, [], ◌∷◌, if◌then◌else◌, nat_eq, list_eq, pair_eq, ◌==◌, beq-eq, arith, pos,
}
use sqlalchemy_collectd.Base.Dict.{Dict, lookup, insert, contains, lookup-insert, contains-insert}
use sqlalchemy_collectd.Protocol.Bytes.{Text}
use sqlalchemy_collectd.Client.Collector
use sqlalchemy_collectd.Client.Collector.{CollectionTarget, collection_for_name, add_collector}
use sqlalchemy_collectd.Client.Sender
use sqlalchemy_collectd.Client.Sender.{SenderKey, Sender, get_sender}
use sqlalchemy_collectd.Client.Worker.{add_target}
use sqlalchemy_collectd.Client.Plugin.{
  or_else, Shared, register, Engine, System, target_name, sender_key, start_plugin, start_each,
  nothing_shared,
}

-- a target with the collectors of those engines that are of the program
abbrev pub joined : System → Text → List Engine → Option CollectionTarget → Option CollectionTarget
joined system name [] t = t
joined system name (e ∷ es) t =
    if target_name system e == name
    then joined system name es (some (add_collector e.collector (or_else t (Collector.new name))))
    else joined system name es t

abbrev pub has_key : System → SenderKey → List Engine → Bool
has_key system key [] = false
has_key system key (e ∷ es) = sender_key system e == key || has_key system key es

abbrev pub is_served : System → Text × SenderKey → List Engine → Bool
is_served system served [] = false
is_served system served (e ∷ es) =
    (target_name system e, sender_key system e) == served || is_served system served es

module _ (d : Dict Text CollectionTarget) (name : Text) where
  for_name-absent :
      lookup name d ≡ none
      → collection_for_name d name ≡ (insert name (Collector.new name) d, Collector.new name)
  unfolding collection_for_name
  for_name-absent h = rw (collection_for_name, h) refl

  for_name-found :
      {t : CollectionTarget} → lookup name d ≡ some t → collection_for_name d name ≡ (d, t)
  unfolding collection_for_name
  for_name-found h = rw (collection_for_name, h) refl

  for_name-target : (collection_for_name d name).1 ≡ or_else (lookup name d) (Collector.new name)
  for_name-target = elim (Option-cases (lookup name d)) [
    | inl absent ↦ rw (for_name-absent absent, absent) refl
    | inr (t, found) ↦ rw (for_name-found found, found) refl
  ]

  for_name-targets :
      (j : Text) → (name == j) ≡ false → lookup j (collection_for_name d name).0 ≡ lookup j d
  for_name-targets j other = elim (Option-cases (lookup name d)) [
    | inl absent ↦
        rw (for_name-absent absent) (lookup-insert name j (Collector.new name) d ∙ rw other refl)
    | inr (t, found) ↦ rw (for_name-found found) refl
  ]

module _ (d : Dict SenderKey Sender) (key : SenderKey) where
  sender-absent :
      lookup key d ≡ none → get_sender d key ≡ (insert key (Sender.new key) d, Sender.new key)
  unfolding get_sender
  sender-absent h = rw (get_sender, h) refl

  sender-found : {s : Sender} → lookup key d ≡ some s → get_sender d key ≡ (d, s)
  unfolding get_sender
  sender-found h = rw (get_sender, h) refl

  get_sender-lookup :
      (k : SenderKey)
      → lookup k (get_sender d key).0
        ≡ (if key == k then some (or_else (lookup key d) (Sender.new key)) else lookup k d)
  get_sender-lookup k = elim (Option-cases (lookup key d)) [
    | inl absent ↦ rw (sender-absent absent, absent) (lookup-insert key k (Sender.new key) d)
    | inr (t, found) ↦ rw (sender-found found) (elim (Bool-cases (key == k)) [
      | inl same ↦ rw (same, found) (ap (λ j. lookup j d) (sym (beq-eq key k same)) ∙ found)
      | inr other ↦ rw other refl
    ])
  ]

module _ (collector : ℕ) (progname : Text) (key : SenderKey) (s : Shared) where
  register-targets :
      (name : Text)
      → lookup name (register collector progname key s).targets ≡ (
          if progname == name
          then some (add_collector collector (or_else (lookup name s.targets) (Collector.new name)))
          else lookup name s.targets)
  unfolding register
  register-targets name =
      lookup-insert progname name
        (add_collector collector (collection_for_name s.targets progname).1)
        (collection_for_name s.targets progname).0
      ∙ elim (Bool-cases (progname == name)) [
        | inl same ↦ rw same (
            rw (for_name-target s.targets progname) (
              ap
                (λ j.
                  some (add_collector collector (or_else (lookup j s.targets) (Collector.new j))))
                (beq-eq progname name same)))
        | inr other ↦ rw other (for_name-targets s.targets progname name other)
      ]

  register-senders :
      (k : SenderKey)
      → lookup k (register collector progname key s).senders ≡ (
          if key == k
          then some (or_else (lookup key s.senders) (Sender.new key))
          else lookup k s.senders)
  unfolding register
  register-senders k = get_sender-lookup s.senders key k

  register-worker :
      (served : Text × SenderKey)
      → contains served (register collector progname key s).worker
        ≡ ((progname, key) == served || contains served s.worker)
  unfolding register add_target
  register-worker served = elim (Bool-cases (contains (progname, key) s.worker)) [
    | inl there ↦ rw there (elim (Bool-cases ((progname, key) == served)) [
      | inl same ↦
          rw same (ap (λ j. contains j s.worker) (sym (beq-eq (progname, key) served same)) ∙ there)
      | inr other ↦ rw other refl
    ])
    | inr new ↦ rw new (contains-insert (progname, key) served (pos 0) s.worker)
  ]

module _ (system : System) where
  start_each-targets :
      (name : Text) (es : List Engine) (s : Shared)
      → lookup name (start_each system es s).targets ≡ joined system name es (lookup name s.targets)
  unfolding start_each start_plugin
  start_each-targets name [] s = refl
  start_each-targets name (e ∷ es) s =
      let own = target_name system e in
      start_each-targets name es (start_plugin system e s)
      ∙ ap (joined system name es) (register-targets e.collector own (sender_key system e) s name)
      ∙ elim (Bool-cases (own == name)) [ inl same ↦ rw same refl | inr other ↦ rw other refl ]

  -- a sender that is there, or a new one
  abbrev known : SenderKey → Bool → Option Sender → Option Sender
  known key b o = if b then some (or_else o (Sender.new key)) else o

  known-either :
      (key : SenderKey) (a b : Bool) (o : Option Sender)
      → known key b (known key a o) ≡ known key (a || b) o
  known-either key true true o = refl
  known-either key true false o = refl
  known-either key false b o = refl

  start_plugin-senders :
      (key : SenderKey) (e : Engine) (s : Shared)
      → lookup key (start_plugin system e s).senders
        ≡ known key (sender_key system e == key) (lookup key s.senders)
  unfolding start_plugin
  start_plugin-senders key e s =
      register-senders e.collector (target_name system e) (sender_key system e) s key
      ∙ elim (Bool-cases (sender_key system e == key)) [
        | inl same ↦ rw same (
            ap (λ k. some (or_else (lookup k s.senders) (Sender.new k)))
              (beq-eq (sender_key system e) key same))
        | inr other ↦ rw other refl
      ]

  start_each-senders :
      (key : SenderKey) (es : List Engine) (s : Shared)
      → lookup key (start_each system es s).senders
        ≡ known key (has_key system key es) (lookup key s.senders)
  unfolding start_each
  start_each-senders key [] s = refl
  start_each-senders key (e ∷ es) s =
      start_each-senders key es (start_plugin system e s)
      ∙ ap (known key (has_key system key es)) (start_plugin-senders key e s)
      ∙ known-either key (sender_key system e == key) (has_key system key es) (lookup key s.senders)

  start_each-worker :
      (served : Text × SenderKey) (es : List Engine) (s : Shared)
      → contains served (start_each system es s).worker
        ≡ (is_served system served es || contains served s.worker)
  unfolding start_each start_plugin
  start_each-worker served [] s = refl
  start_each-worker served (e ∷ es) s = ground (
    arith,
    start_each-worker served es (start_plugin system e s),
    register-worker e.collector (target_name system e) (sender_key system e) s served,
  )

  -- Of engines that are made one after the other: those of one program share one target, which has
  -- the collectors of all of them; there is one sender for each pair of names, host and port that
  -- occurs, and no other; and the worker serves a target with a sender exactly if an engine asks for
  -- the two.
  pub start_each-shares :
      (es : List Engine) (name : Text) (key : SenderKey) (served : Text × SenderKey)
      → (lookup name (start_each system es nothing_shared).targets ≡ joined system name es none)
        × (lookup key (start_each system es nothing_shared).senders
            ≡ (if has_key system key es then some (Sender.new key) else none))
        × (contains served (start_each system es nothing_shared).worker
            ≡ is_served system served es)
  start_each-shares es name key served = (
    start_each-targets name es nothing_shared,
    start_each-senders key es nothing_shared,
    ground (arith, start_each-worker served es nothing_shared),
  )
