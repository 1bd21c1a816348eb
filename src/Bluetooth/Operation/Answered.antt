-- ===== src/Bluetooth/Operation/Answered.antt =====
-- What an operation sends, what it returns, and that it ends
-- (guest/devices/bluetooth_management.py, `device_operation`).
use mathlib.Core.List.{Mem}
use ashacky.Base.{
  leb, Bool-cases, is_some, any, Result, ok, ℕ, ◌≤◌, ◌<◌, ◌≡◌, refl, inl, inr, Bool, true, Option,
  List, [], ◌∷◌, arith,
}
use ashacky.Base.Json.{Json, Fields, get}
use ashacky.Host.Status.{is_true, is_text}
use ashacky.Bluetooth.Operation.{
  Sent, Poll, decision, Round, state_of, after_round, poll_round, polls, confirmation, passkey,
  stop, go_on,
}

module _ {F : Type 0} (same : Option (Json F) → Option (Json F) → Bool) where
  -- An operation that the host has completed: its state in a poll, of the same operation.
  abbrev pub IsCompleted : Option (Json F) → ℕ → List (Poll F) → Fields F → Type 0
  IsCompleted id deadline ps operation =
      ((p : Poll F) × Mem p ps × (p.time < deadline) × (state_of p ≡ ok operation))
      × (same (get "id" operation) id ≡ true)
      × (is_text "complete" (get "state" operation) ≡ true)
      × (is_true (get "success" operation) ≡ true)

  after_round-ends :
      (r : List (Sent F) × Round F)
      (next : Option (Json F) → List (Sent F) × Option (Result (Fields F)))
      → ((d : Option (Json F)) → is_some (next d).1 ≡ true)
      → is_some (after_round r next).1 ≡ true
  after_round-ends (sent, stop r) next h = refl
  after_round-ends (sent, go_on d) next h = h d

  -- Once the clock has come to the deadline, the operation has ended: with a result, or with an error.
  pub polls_end :
      (id : Option (Json F)) (deadline : ℕ) (ps : List (Poll F)) (displayed : Option (Json F))
      → any (λ p. leb deadline p.time) ps ≡ true
      → is_some (polls same id deadline ps displayed).1 ≡ true
  unfolding polls
  polls_end id deadline [] displayed h = ground arith
  polls_end id deadline (p ∷ ps) displayed h = elim (Bool-cases (leb deadline p.time)) [
    | inl y ↦ rw y refl
    | inr n ↦
        let later : any (λ q. leb deadline q.time) ps ≡ true = ground arith in
        rw n (
          after_round-ends (poll_round same id p (state_of p) displayed)
            (λ d. polls same id deadline ps d) (λ d. polls_end id deadline ps d later))
  ]

  abbrev pub IsAnswer : Option (Json F) → List (Poll F) → Sent F → Type 0
  IsAnswer id ps (passkey n) = n ≤ 999999
  IsAnswer id ps (confirmation i accepted) =
      (i ≡ id)
      × ((p : Poll F) × Mem p ps
          × (accepted ≡ decision p.confirm)
          × ((state : Fields F) × (state_of p ≡ ok state)
              × (same (get "id" state) id ≡ true)
              × (is_some (get "confirmation" state) ≡ true)))
