-- ===== src/Bluetooth/Bridge/Calls/Agents.antt =====
-- The default agent, and the registrations, whatever the bridge is called with
-- (guest/devices/bluetooth_bluez.py, `method`, `owner_changed` and `update`).
use mathlib.Core.Path.{subst}
use ashacky.Base.{
  Bool-cases, is_some, if-intro, if-cases, Bytes, bytes_eq, bytes_eq_sound, bytes_eq_refl, Result,
  err, ok, String, ◌≡◌, refl, sym, inl, inr, Bool, true, false, not, ◌&&◌, Option, none, some, List,
  arith,
}
use ashacky.Base.Assoc.{lookup, has, put, erase, lookup-put_ne, lookup-erase_ne}
use ashacky.Bluetooth.Operation.{Action}
use ashacky.Bluetooth.Events.{active, notify}
use ashacky.Bluetooth.Bridge.Devices.{ObjectPath, paths, names, manager_path}
use ashacky.Bluetooth.Bridge.Exported.{not_both, Agrees}
use ashacky.Bluetooth.Bridge.{BluezBridge, is_empty_set}
use ashacky.Bluetooth.Bridge.Calls.{
  Act, is_capability, agent_is, owner_is, registered_as, register_call, unregister_call,
  default_call, operate_call, schedule_discovery, after_work, operation_finished,
}

-- the default agent is registered, with the path that it was registered with
abbrev pub is_registered : Option (Bytes × Bytes) → List (Bytes × Bytes) → Bool
is_registered none agents = true
is_registered (some (sender, path)) agents = registered_as path (lookup names sender agents)

not_registered : (p : Bytes) (o : Option Bytes) → is_some o ≡ false → registered_as p o ≡ true → ⊥
not_registered p none n h = ground arith
not_registered p (some r) n h = ground arith

true_of_not : (b : Bool) → not b ≡ false → b ≡ true
true_of_not b h = ground arith

is_registered-put :
    (agent : Option (Bytes × Bytes)) (sender path : Bytes) (agents : List (Bytes × Bytes))
    → has names sender agents ≡ false
    → is_registered agent agents ≡ true
    → is_registered agent (put names sender path agents) ≡ true
is_registered-put none sender path agents n h = refl
is_registered-put (some (s, p)) sender path agents n h = elim (Bool-cases (bytes_eq sender s)) [
  | inl same ↦ absurd (
      not_registered p (lookup names s agents)
        (subst (λ x. has names x agents ≡ false) (bytes_eq_sound sender s same) n) h)
  | inr other ↦ rw (lookup-put_ne names s sender path agents other) h
]

pub is_registered-erase :
    (agent : Option (Bytes × Bytes)) (sender : Bytes) (agents : List (Bytes × Bytes))
    → owner_is sender agent ≡ false
    → is_registered agent agents ≡ true
    → is_registered agent (erase names sender agents) ≡ true
is_registered-erase none sender agents n h = refl
is_registered-erase (some (s, p)) sender agents n h = elim (Bool-cases (bytes_eq sender s)) [
  | inl same ↦ absurd (
      not_both (bytes_eq s sender)
        (subst (λ x. bytes_eq s x ≡ true) (sym (bytes_eq_sound sender s same)) (bytes_eq_refl s)) n)
  | inr other ↦ rw (lookup-erase_ne names s sender agents other) h
]

registered_twice :
    (p path : Bytes) (o : Option Bytes)
    → registered_as p o ≡ true
    → registered_as path o ≡ true
    → bytes_eq p path ≡ true
registered_twice p path none h k = ground arith
registered_twice p path (some r) h k = subst (λ x. bytes_eq x path ≡ true) (bytes_eq_sound r p h) k

other_path : (a b : Bool) → a ≡ true → (a && b) ≡ false → b ≡ false
other_path a b h n = ground arith

-- when an agent is unregistered, a default agent of the same owner was the one of its path
agent_is-owner :
    (sender path : Bytes) (agent : Option (Bytes × Bytes)) (agents : List (Bytes × Bytes))
    → registered_as path (lookup names sender agents) ≡ true
    → is_registered agent agents ≡ true
    → agent_is sender path agent ≡ false
    → owner_is sender agent ≡ false
agent_is-owner sender path none agents r h n = refl
agent_is-owner sender path (some (s, p)) agents r h n = elim (Bool-cases (bytes_eq s sender)) [
  | inr other ↦ other
  | inl same ↦
      let e = bytes_eq_sound s sender same in
      let here = subst (λ x. registered_as p (lookup names x agents) ≡ true) e h in
      absurd (
        not_both (bytes_eq p path) (registered_twice p path (lookup names sender agents) here r)
          (other_path (bytes_eq s sender) (bytes_eq p path) same n))
]

-- A path is registered exactly when it is exported, the root is never exported by an update, and the default
-- agent is one that is registered.
abbrev pub IsSound : {F V : Type 0} → ObjectPath → BluezBridge F V → Type 0
IsSound q b =
    Agrees q (b.objects, b.registrations)
    × (has paths manager_path b.objects ≡ false)
    × (is_registered b.default_agent b.agents ≡ true)

module _ {F V : Type 0} (q : ObjectPath) where
  abbrev pub Sounds : BluezBridge F V × List (Act V) → Type 0
  Sounds (b, acts) = IsSound q b

  pub register_call-IsSound :
      (sender path : Bytes) (capability : String) (b : BluezBridge F V)
      → IsSound q b
      → Sounds (register_call sender path capability b)
  unfolding register_call
  register_call-IsSound sender path capability b (a, m, d) =
      if-intro Sounds (not (is_capability capability)) _ _ (a, m, d)
        (if-cases Sounds (has names sender b.agents) _ _ (λ y. (a, m, d))
          (λ n. (a, m, is_registered-put b.default_agent sender path b.agents n d)))

  pub unregister_call-IsSound :
      (sender path : Bytes) (b : BluezBridge F V)
      → IsSound q b
      → Sounds (unregister_call sender path b)
  unfolding unregister_call
  unregister_call-IsSound sender path b (a, m, d) =
      if-cases Sounds (not (registered_as path (lookup names sender b.agents))) _ _ (λ y. (a, m, d))
        (λ r. (
          a,
          m,
          if-cases (λ g. is_registered g (erase names sender b.agents) ≡ true)
              (agent_is sender path b.default_agent) none b.default_agent (λ y. refl)
              (λ n.
                is_registered-erase b.default_agent sender b.agents
                  (agent_is-owner sender path b.default_agent b.agents (true_of_not _ r) d n) d),
        ))

  pub default_call-IsSound :
      (sender path : Bytes) (b : BluezBridge F V)
      → IsSound q b
      → Sounds (default_call sender path b)
  unfolding default_call
  default_call-IsSound sender path b (a, m, d) =
      if-cases Sounds (not (registered_as path (lookup names sender b.agents))) _ _ (λ y. (a, m, d))
        (λ r. (a, m, true_of_not _ r))

  pub operate_call-IsSound :
      (sender : Bytes) (path : ObjectPath) (action : Action) (b : BluezBridge F V)
      → IsSound q b
      → Sounds (operate_call sender path action b)
  unfolding operate_call
  operate_call-IsSound sender path action b s = if-intro Sounds b.pending _ _ s s

  schedule_discovery-IsSound :
      (b : BluezBridge F V) → IsSound q b → IsSound q (schedule_discovery b)
  unfolding schedule_discovery
  schedule_discovery-IsSound b s =
      if-intro (IsSound q)
        (not (is_empty_set b.discovery)
          && not b.bridge_closed
          && active b.events
          && not b.events.closed)
        _ _ s s

  pub after_work-IsSound : (b : BluezBridge F V) → IsSound q b → IsSound q (after_work b)
  unfolding after_work
  after_work-IsSound b s =
      if-intro (λ (x : BluezBridge F V). IsSound q (schedule_discovery x)) b.refresh_again _ _
        (schedule_discovery-IsSound (record b { refresh_again = false; events = notify b.events })
          s)
        (schedule_discovery-IsSound b s)

  pub operation_finished-IsSound :
      (result : Result (Unit {0})) (b : BluezBridge F V)
      → IsSound q b
      → Sounds (operation_finished result b)
  unfolding operation_finished
  operation_finished-IsSound (ok u) b s =
      if-intro Sounds b.bridge_closed _ _ s
        (after_work-IsSound (record b { pending = false; refresh_again = true }) s)
  operation_finished-IsSound (err e) b s =
      if-intro Sounds b.bridge_closed _ _ s (after_work-IsSound (record b { pending = false }) s)
