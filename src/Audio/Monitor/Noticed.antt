-- ===== src/Audio/Monitor/Noticed.antt =====
-- A change of the graph wakes the service (guest/devices/audio_events.py, `AudioEvents.receive`).
use mathlib.Core.Path.{subst}
use ashacky.Base.{
  Bool-cases, Option-cases, Result, err, ok, ℕ, ◌≡◌, refl, sym, inl, inr, Bool, true, false, Option,
  none, List, [], ◌∷◌, arith,
}
use ashacky.Base.Json.{Json, Items}
use ashacky.Audio.Graph.Seen.{IsSameGraph, IsSameGraph-trans, IsSameGraph-self, update-IsSameGraph}
use ashacky.Wifi.Events.{ValueEq}
use ashacky.Audio.Graph.{Graph, update}
use ashacky.Audio.Graph.Seen.{IsSameGraph}
use ashacky.Audio.Events.{AudioEvents, notify}
use ashacky.Audio.Monitor.{
  Read, Monitor, is_handled, after_update, take_batches, take_fed, settle, receive, would_block,
  broken, hung_up, chunk,
}

module _ {F : Type 0} (truth : F → Bool) (q : ValueEq F)
    (trans : (a b c : Option (Json F))
      → q.same a b ≡ true
      → q.same b c ≡ true
      → q.same a c ≡ true) where
  -- without an armed reconciliation nothing has changed
  abbrev IsNoticed : Monitor F → Monitor F → Type 0
  IsNoticed m m' =
      m'.events.timers.at_reconcile ≡ none
      → (m.events.timers.at_reconcile ≡ none) × IsSameGraph truth q trans m.graph m'.graph

  notify-armed : (e : AudioEvents F) → e.closed ≡ false → (notify e).timers.at_reconcile ≡ none → ⊥
  notify-armed e c h = elim (Option-cases e.timers.at_reconcile) [
    | inl n ↦ ground arith
    | inr (t, n) ↦ ground arith
  ]

  after_update-IsNoticed :
      (m : Monitor F) (p : Graph F × Result Bool) (next : Monitor F → Monitor F × Result (Unit {0}))
      → m.events.closed ≡ false
      → (p.1 ≡ ok false → IsSameGraph truth q trans m.graph p.0)
      → ((n : Monitor F) → n.events.closed ≡ false → (next n).1 ≡ ok tt → IsNoticed n (next n).0)
      → (after_update truth q m p next).1 ≡ ok tt
      → IsNoticed m (after_update truth q m p next).0
  after_update-IsNoticed m (g, err e) next c s n h = cc
  after_update-IsNoticed m (g, ok true) next c s n h = λ quiet.
      let m' : Monitor F = record m { graph = g; events = notify m.events } in
      absurd (notify-armed m.events c (n m' (ground arith) h quiet).0)
  after_update-IsNoticed m (g, ok false) next c s n h = λ quiet.
      let m' : Monitor F = record m { graph = g } in
      let (r, t) = n m' c h quiet in
      (r, IsSameGraph-trans truth q trans m.graph g (next m').0.graph (s refl) t)

  take_batches-IsNoticed :
      (bs : List (Items F)) (m : Monitor F)
      → m.events.closed ≡ false
      → (take_batches truth q bs m).1 ≡ ok tt
      → IsNoticed m (take_batches truth q bs m).0
  unfolding take_batches
  take_batches-IsNoticed [] m c h = λ quiet. (quiet, IsSameGraph-self truth q trans m.graph)
  take_batches-IsNoticed (b ∷ bs) m c h =
      after_update-IsNoticed m (update truth q b m.graph) (λ m'. take_batches truth q bs m') c
        (λ o. (update-IsSameGraph truth q trans b m.graph o).1) (take_batches-IsNoticed bs) h

  settle-eq-true :
      (p : Monitor F × Result (Unit {0}))
      → (settle truth q p).1 ≡ ok true
      → (p.1 ≡ ok tt) × ((settle truth q p).0 ≡ p.0)
  settle-eq-true (m, ok done) h = (refl, refl)
  settle-eq-true (m, err e) h = elim (Bool-cases (is_handled e)) [
    | inl y ↦ ground arith
    | inr n ↦ ground arith
  ]

  take_fed-IsNoticed :
      (r : Result (List (Items F) × List ℕ)) (m : Monitor F)
      → m.events.closed ≡ false
      → (settle truth q (take_fed truth q r m)).1 ≡ ok true
      → IsNoticed m (settle truth q (take_fed truth q r m)).0
  take_fed-IsNoticed (err e) m c h = cc (settle-eq-true (m, err e) h).0
  take_fed-IsNoticed (ok (batches, rest)) m c h =
      let m' : Monitor F = record m { buffer = rest } in
      let (o, s) = settle-eq-true (take_batches truth q batches m') h in
      subst (λ n. IsNoticed m n) (sym s) (take_batches-IsNoticed batches m' c o)

  module _ (space : ℕ → Bool) (raw : List ℕ → Option (Json F × ℕ)) (limit : ℕ) where
    -- What the pipe brings to an open service, with an equality of values that is transitive: where `receive`
    -- keeps the source and no reconciliation is armed afterwards, none was armed before, and the graph
    -- shows the same endpoints, has the same metadata and fetches the same.
    pub receive-IsSameGraph :
        (read : Read) (m : Monitor F)
        → m.events.closed ≡ false
        → (receive truth q space raw limit read m).1 ≡ ok true
        → let m' = (receive truth q space raw limit read m).0 in
          m'.events.timers.at_reconcile ≡ none
          → (m.events.timers.at_reconcile ≡ none) × IsSameGraph truth q trans m.graph m'.graph
    unfolding receive
    receive-IsSameGraph would_block m c h = λ quiet. (quiet, IsSameGraph-self truth q trans m.graph)
    receive-IsSameGraph broken m c h = take_fed-IsNoticed _ m c h
    receive-IsSameGraph hung_up m c h = take_fed-IsNoticed _ m c h
    receive-IsSameGraph (chunk text) m c h = take_fed-IsNoticed _ m c h
