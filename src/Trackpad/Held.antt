-- ===== src/Trackpad/Held.antt =====
-- No contact stays down for longer than a second without a frame, and a frame never finds the slots
-- full (guest/input/trackpad.py, `serve`).
use ashacky.Base.{
  leb, Bool-cases, Result, >>=-eq-ok, stop_iteration, ok, err, ℕ, ◌+◌, ◌-◌, ◌≤◌, min, ◌≡◌, ◌≢◌, inl,
  inr, true, false, ◌&&◌, some, List, [], ◌∷◌, ◌++◌, arith,
}
use ashacky.Trackpad.Frame.{UnitFloat}
use ashacky.Trackpad.Pad.{key_writes}
use ashacky.Trackpad.Slots.{IsValid}
use ashacky.Trackpad.Contacts.{releases, frame-empty}
use ashacky.Trackpad.Serve.{
  Loop, Reply, Output, held, heartbeat, submit, expire, poll, select_timeout, frame_writes,
}

-- the slots of an outcome are valid, and it is no StopIteration
abbrev pub Sound : Result (Loop × List Output) → Type 0
Sound (ok (l, _)) = IsValid l.pad.slots
Sound (err e) = e ≢ stop_iteration

pub no_contacts : IsValid []
no_contacts = ground arith

module _ {F : Type 0} (u : UnitFloat F) where
  pub submit_empty :
      (l : Loop)
      → submit u [] 0 l
        ≡ ok (
          record l { pad = record { slots = []; buttons = 0 } },
          frame_writes (releases l.pad.slots ++ key_writes u [] 0) ∷ [],
        )
  submit_empty l = rw (frame-empty u l.pad, submit)

  expire_lem :
      (now : ℕ) (l l' : Loop) (out : List Output)
      → expire u now l ≡ ok (l', out)
      → (1000 ≤ now - l.last → held l'.pad ≡ false) × (l'.last ≡ l.last)
  unfolding expire
  expire_lem now l l' out h = elim (Bool-cases (held l.pad && leb 1000 (now - l.last))) [
    | inl due ↦ ground (arith, submit_empty l)
    | inr calm ↦ ground arith
  ]

heartbeat_lem :
    (now later : ℕ) (reply : Reply) (l l' : Loop) (out : List Output)
    → heartbeat now later reply l ≡ ok (l', out)
    → (l'.pad ≡ l.pad) × (l'.last ≡ l.last)
unfolding heartbeat
heartbeat_lem now later reply l l' out h = ground arith

held_timeout :
    (after : ℕ) (l : Loop)
    → held l.pad ≡ true
    → (wait : ℕ) × (select_timeout after l ≡ some wait) × (wait ≤ l.last + 1000 - after)
unfolding select_timeout
held_timeout after l h = elim (Bool-cases l.blocked) [
  | inl b ↦ (l.last + 1000 - after, ground arith, omega arith)
  | inr b ↦ (min l.next_ready (l.last + 1000) - after, ground arith, omega arith)
]

-- A round passes its two checks: the pad is the one after the first, and the time of the last good
-- frame is the one before.
poll-stages :
    {F : Type 0} (u : UnitFloat F) (now later : ℕ) (reply : Reply) (l l' : Loop) (out : List Output)
    → poll u now later reply l ≡ ok (l', out)
    → (1000 ≤ now - l.last → held l'.pad ≡ false) × (l'.last ≡ l.last)
unfolding poll
poll-stages u now later reply l l' out h =
    let ((l₁, o₁), e, f) = >>=-eq-ok (expire u now l) _ h in
    let ((l₂, o₂), g, k) = >>=-eq-ok (heartbeat now later reply l₁) _ f in
    let (lifted, same_last) = expire_lem u now l l₁ o₁ e in
    let (same_pad, same_last₂) = heartbeat_lem now later reply l₁ l₂ o₂ g in
    let last : l₂ ≡ l' = ground arith in ((λ due. ground (arith, lifted due)), ground arith)

-- After the checks at the head of a round, if a second or more has passed since the last good frame,
-- no contact and no button is held.
pub poll-held :
    {F : Type 0} (u : UnitFloat F) (now later : ℕ) (reply : Reply) (l l' : Loop) (out : List Output)
    → poll u now later reply l ≡ ok (l', out)
    → 1000 ≤ now - l.last
    → held l'.pad ≡ false
poll-held u now later reply l l' out h due = (poll-stages u now later reply l l' out h).0 due

-- While a contact or a button is held after the checks at the head of a round, `select` waits, and at
-- most until a second after the last good frame is over.
poll-select_timeout :
    {F : Type 0} (u : UnitFloat F) (now later after : ℕ) (reply : Reply) (l l' : Loop)
    (out : List Output)
    → poll u now later reply l ≡ ok (l', out)
    → held l'.pad ≡ true
    → (wait : ℕ) × (select_timeout after l' ≡ some wait) × (wait ≤ l.last + 1000 - after)
poll-select_timeout u now later after reply l l' out h down =
    let since = (poll-stages u now later reply l l' out h).1 in
    let (wait, e, le) = held_timeout after l' down in (wait, e, omega (arith, since))
