-- ===== src/Wifi/Radio.antt =====
-- The radio intent (guest/devices/wifi_power.py, `class RadioIntent`): guest choices told apart
-- from the initial state and from the echoes of our own rfkill writes.
use ashacky.Base.{
  ◌==◌, if◌then◌else◌, Bool-cases, Option-cases, is_some, Error, Result, ok, err, ℕ, ◌+◌, ◌≡◌, refl,
  ◌≢◌, ◌⊎◌, inl, inr, Bool, true, false, not, ◌&&◌, ◌||◌, Option, none, some, arith,
}

-- `soft` is the soft block, 0 or 1; an attempt is a serial number and whether the radio is to be on.
pub record Radio : Type 0 where
  pub index : ℕ
  pub soft : ℕ
  pub initialized : Bool
  pub expected : Option ℕ
  pub serial : ℕ
  pub pending : Option (ℕ × Bool)

abbrev pub new_radio : ℕ → ℕ → Radio
new_radio index soft = record {
  index = index;
  soft = soft;
  initialized = false;
  expected = none;
  serial = 0;
  pending = none;
}

-- `soft == expected`, where `expected` may be None
abbrev pub equals_expected : ℕ → Option ℕ → Bool
equals_expected soft none = false
equals_expected soft (some e) = soft == e

unfoldable pub observe : ℕ → Radio → Radio × Bool
observe soft r =
    let r' = record r { soft = soft; expected = none } in
    if equals_expected soft r.expected || soft == r.soft || not r.initialized
    then (r', false)
    else (record r' { serial = r.serial + 1; pending = some (r.serial + 1, soft == 0) }, true)

abbrev pub bool_eq : Bool → Bool → Bool
bool_eq true b = b
bool_eq false b = not b

abbrev pub attempt_eq : Option (ℕ × Bool) → Option (ℕ × Bool) → Bool
attempt_eq none none = true
attempt_eq (some (n, b)) (some (m, c)) = n == m && bool_eq b c
attempt_eq _ _ = false

unfoldable pub attempted : Option (ℕ × Bool) → Radio → Radio
attempted attempt r =
    if is_some attempt && attempt_eq r.pending attempt then record r { pending = none } else r

-- `int(not powered)`
abbrev pub blocked : Bool → ℕ
blocked powered = if powered then 0 else 1

-- The call of `write`, with its outcome: the block that was written, if any, and an exception of
-- the write.
unfoldable pub follow :
    (ℕ → ℕ → Result (Unit {0})) → Bool → Radio → Radio × Option ℕ × Result (Unit {0})
follow write powered r =
    let desired = blocked powered in
    if desired == r.soft then (r, none, ok tt) else elim (write r.index desired) [
      | ok _ ↦ (record r { expected = some desired; soft = desired }, some desired, ok tt)
      | err e ↦ (r, none, err e)
    ]

unfoldable pub apply :
    (ℕ → ℕ → Result (Unit {0})) → Bool → Radio → Radio × Option ℕ × Result (Unit {0})
unfolding follow
apply write powered r =
    let r' = record r { initialized = true } in
    elim r.pending [
      | none ↦ follow write powered r'
      | some attempt ↦
          if not (bool_eq attempt.1 powered)
          then (r', none, ok tt)
          else follow write powered (record r' { pending = none })
    ]

unfoldable pub inactive : Radio → Radio
inactive r = record r { initialized = false; pending = none }

-- what a call of `write` came to
pub Result-cases : (m : Result (Unit {0})) → (m ≡ ok tt) ⊎ ((e : Error) × (m ≡ err e))
Result-cases (ok _) = inl refl
Result-cases (err e) = inr (e, refl)

follow_wrote :
    (write : ℕ → ℕ → Result (Unit {0})) (powered : Bool) (r : Radio) (desired : ℕ)
    → (follow write powered r).1 ≡ some desired
    → (desired ≡ blocked powered)
      × ((follow write powered r).0 ≡ record r { expected = some desired; soft = desired })
unfolding follow
follow_wrote write powered r desired h = elim (Result-cases (write r.index (blocked powered))) [
  | inl w ↦ ground arith
  | inr (e, w) ↦ ground arith
]

observe-follow :
    (write : ℕ → ℕ → Result (Unit {0})) (powered : Bool) (r : Radio) (desired other : ℕ)
    → r.initialized ≡ true
    → (follow write powered r).1 ≡ some desired
    → other ≢ desired
    → let r' = (follow write powered r).0 in
      ((observe desired r').1 ≡ false)
      × ((observe desired r').0.pending ≡ r'.pending)
      × ((observe other r').0.pending ≡ some (r.serial + 1, other == 0))
unfolding observe
observe-follow write powered r desired other i h ne =
    ground (arith, follow_wrote write powered r desired h)

-- When the host state was applied by a write, the echo of that write is no choice of the user: it
-- leaves the pending attempt alone. The opposite block, seen next, is one: it becomes the pending
-- attempt, with a new serial.
observe-apply :
    (write : ℕ → ℕ → Result (Unit {0})) (powered : Bool) (r : Radio) (desired other : ℕ)
    → (apply write powered r).1 ≡ some desired
    → other ≢ desired
    → let r' = (apply write powered r).0 in
      ((observe desired r').1 ≡ false)
      × ((observe desired r').0.pending ≡ r'.pending)
      × ((observe other r').0.pending ≡ some (r.serial + 1, other == 0))
unfolding apply
observe-apply write powered r desired other h ne = elim (Option-cases r.pending) [
  | inl e ↦
      ground
        (arith, observe-follow write powered (record r { initialized = true }) desired other refl)
  | inr (a, e) ↦ ground (
    arith,
    observe-follow write powered (record r { initialized = true; pending = none }) desired other
        refl,
  )
]

follow_agrees :
    (write : ℕ → ℕ → Result (Unit {0})) (powered : Bool) (r : Radio)
    → (follow write powered r).2 ≡ ok tt
    → ((follow write powered r).0.pending ≡ r.pending)
      × ((follow write powered r).0.soft ≡ blocked powered)
unfolding follow
follow_agrees write powered r h = elim (Result-cases (write r.index (blocked powered))) [
  | inl w ↦ ground arith
  | inr (e, w) ↦ ground arith
]

-- After the host state was applied without an exception, either no choice is pending and the
-- guest's block agrees with the host, or the pending choice was one against the host's state, and it
-- and the block are as before.
apply_agrees :
    (write : ℕ → ℕ → Result (Unit {0})) (powered : Bool) (r : Radio)
    → (apply write powered r).2 ≡ ok tt
    → let r' = (apply write powered r).0 in
      ((r'.pending ≡ none) × (r'.soft ≡ blocked powered))
      ⊎ ((serial : ℕ) × (r.pending ≡ some (serial, not powered))
          × (r'.pending ≡ r.pending)
          × (r'.soft ≡ r.soft))
unfolding apply
apply_agrees write powered r h = elim (Option-cases r.pending) [
  | inl e ↦ inl (ground (arith, follow_agrees write powered (record r { initialized = true })))
  | inr ((n, b), e) ↦ elim (Bool-cases (bool_eq b powered)) [
    | inl s ↦ inl (
        ground
          (arith, follow_agrees write powered (record r { initialized = true; pending = none })))
    | inr d ↦ inr (n, ground arith, ground arith, ground arith)
  ]
]
