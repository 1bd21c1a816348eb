-- ===== src/Battery.antt =====
-- The battery feed (guest/drivers/battery/feed.py, `battery_state` and `publish`): what the host's status
-- says of the battery, as the line that is written to the virtual battery.
use mathlib.Core.Path.{subst}
use native.Mathlib.Nat.{mul-div_right, div-add-mod, div-lt_iff_lt-mul}
use ashacky.Base.{
  ltb, leb, ◌==◌, if◌then◌else◌, Bool-cases, Result, ◌>>=◌, ◌>>◌, raise_if, >>=-eq-ok, outcome,
  value_error, type_error, err, ok, ℕ, ◌+◌, ◌-◌, ◌*◌, ◌/◌, ◌%◌, ◌≤◌, ◌<◌, ◌≡◌, refl, sym, inl, inr,
  Bool, true, false, not, ◌&&◌, ◌||◌, Option, none, some, arith,
}
use ashacky.Base.Int.{pos}
use ashacky.Base.Json.{Json, Fields, get, item, bool, int, obj}
use ashacky.Host.Status.{is_true, is_text}
pub mod Watching
mod Tests

-- The numbers of the line `1 AC PERCENT CHARGING`.
pub record Line : Type 0 where
  pub on_ac : Bool
  pub percent : ℕ
  pub charging : Bool

-- `round(current * 100 / maximum)`, the quotient taken exactly: to the nearest, and a half to the even
-- number
unfoldable pub rounded : ℕ → ℕ → ℕ
rounded n d =
    let q = n / d in let r = n % d in if ltb (2 * r) d || 2 * r == d && q % 2 == 0 then q else q + 1

-- `data['battery']`, a dict
unfoldable pub dict_of : {F : Type 0} → Json F → Result (Fields F)
dict_of (obj v) = ok v
dict_of _ = err type_error

-- an `int` that is not negative, the others are out of range; and a `bool`
unfoldable pub natural_of : {F : Type 0} → Json F → Option ℕ
natural_of (int (pos n)) = some n
natural_of _ = none

unfoldable pub truth_of : {F : Type 0} → Json F → Option Bool
truth_of (bool b) = some b
truth_of _ = none

-- The checks of the four values; the last one tells of AC and of battery power.
unfoldable pub telemetry : Option ℕ → Option ℕ → Option Bool → Bool × Bool → Result Line
telemetry (some current) (some maximum) (some charging) (ac, on_battery) =
    if not (maximum == 0) && (leb current maximum && (ac || on_battery))
    then ok (record { on_ac = ac; percent = rounded (current * 100) maximum; charging = charging })
    else err value_error
telemetry (some current) (some maximum) none power = err value_error
telemetry (some current) none charging power = err value_error
telemetry none maximum charging power = err value_error

unfoldable pub battery_state : {F : Type 0} → Fields F → Result Line
battery_state v = do
  raise_if (not (is_true (get "ok" v))) value_error
  found ← item "battery" v
  battery ← dict_of found
  current ← item "Current Capacity" battery
  maximum ← item "Max Capacity" battery
  charging ← item "Is Charging" battery
  power ← item "Power Source State" battery
  telemetry (natural_of current) (natural_of maximum) (truth_of charging)
      (is_text "AC Power" (some power), is_text "Battery Power" (some power))

-- A status of the last 20 seconds, and its line.
unfoldable pub fresh_line : {F : Type 0} → ℕ × Json F → ℕ → Result Line
fresh_line (mtime, value) now =
    if ltb 20000 (now - mtime) then err value_error else dict_of value >>= battery_state

-- `publish`: the line that is written, and what is returned. `snapshot` is the time of the file and its
-- parsed text, `written` the outcome of the write.
unfoldable pub publish :
    {F : Type 0} → Result (ℕ × Json F) → ℕ → (Line → Result (Unit {0})) → Option Line × Bool
publish snapshot now written = elim (snapshot >>= λ s. fresh_line s now) [
  | err e ↦ (none, false)
  | ok line ↦ elim (written line) [ err e ↦ (none, false) | ok _ ↦ (some line, true) ]
]

rounded_full : (maximum : ℕ) → 1 ≤ maximum → rounded (maximum * 100) maximum ≡ 100
unfolding rounded
rounded_full maximum one =
    let q : maximum * 100 / maximum ≡ 100 = mul-div_right 100 (omega (arith, one)) in
    let whole = div-add-mod (maximum * 100) maximum in
    let r : maximum * 100 % maximum ≡ 0 =
      omega (arith, subst (λ n. maximum * n + maximum * 100 % maximum ≡ maximum * 100) q whole) in
    rw (q, r) (ground arith)

rounded_part : (current maximum : ℕ) → current < maximum → rounded (current * 100) maximum ≤ 100
unfolding rounded
rounded_part current maximum lt =
    let q : current * 100 / maximum < 100 =
      (div-lt_iff_lt-mul (omega (arith, lt))).1 (omega (arith, lt)) in
    ground arith

rounded_le :
    (current maximum : ℕ) → 1 ≤ maximum → current ≤ maximum → rounded (current * 100) maximum ≤ 100
rounded_le current maximum one le = elim (Bool-cases (ltb current maximum)) [
  | inl part ↦ rounded_part current maximum (ground arith)
  | inr full ↦
      let same : current ≡ maximum = ground arith in
      subst (λ c. rounded (c * 100) maximum ≤ 100) (sym same)
        (omega (arith, rounded_full maximum one))
]

telemetry_lem :
    (a b : Option ℕ) (c : Option Bool) (p : Bool × Bool) (l : Line)
    → telemetry a b c p ≡ ok l
    → (current maximum : ℕ) × (a ≡ some current)
      × (b ≡ some maximum)
      × (current ≤ maximum)
      × (l.percent ≡ rounded (current * 100) maximum)
      × (l.percent ≤ 100)
unfolding telemetry
telemetry_lem none b c p l h = ground arith
telemetry_lem (some x) none c p l h = ground arith
telemetry_lem (some x) (some y) none p l h = ground arith
telemetry_lem (some x) (some y) (some z) (ac, on_battery) l h =
    let le : x ≤ y = ground arith in
    let one : 1 ≤ y = ground arith in
    let same : l.percent ≡ rounded (x * 100) y = ground arith in
    (x, y, refl, refl, le, same, omega (arith, same, rounded_le x y one le))

battery_state_lem :
    {F : Type 0} (v : Fields F) (l : Line) → battery_state v ≡ ok l → l.percent ≤ 100
unfolding battery_state
battery_state_lem v l h =
    let (u, e₁, h₁) = >>=-eq-ok (raise_if (not (is_true (get "ok" v))) value_error) _ h in
    let (found, e₂, h₂) = >>=-eq-ok (item "battery" v) _ h₁ in
    let (battery, e₃, h₃) = >>=-eq-ok (dict_of found) _ h₂ in
    let (a, e₄, h₄) = >>=-eq-ok (item "Current Capacity" battery) _ h₃ in
    let (b, e₅, h₅) = >>=-eq-ok (item "Max Capacity" battery) _ h₄ in
    let (c, e₆, h₆) = >>=-eq-ok (item "Is Charging" battery) _ h₅ in
    let (p, e₇, h₇) = >>=-eq-ok (item "Power Source State" battery) _ h₆ in
    (telemetry_lem (natural_of a) (natural_of b) (truth_of c) _ l h₇).6

-- A line that is published has a percentage of at most 100, and comes from a status that is no older
-- than 20 seconds.
publish-percent :
    {F : Type 0} (mtime : ℕ) (value : Json F) (now : ℕ) (written : Line → Result (Unit {0}))
    (l : Line)
    → publish (ok (mtime, value)) now written ≡ (some l, true)
    → (l.percent ≤ 100) × (now - mtime ≤ 20000) × (written l ≡ ok tt)
unfolding publish fresh_line
publish-percent mtime value now written l h = elim (Bool-cases (ltb 20000 (now - mtime))) [
  | inl stale ↦ ground arith
  | inr fresh ↦ elim (outcome (dict_of value >>= battery_state)) [
    | inr (x, e) ↦ ground arith
    | inl (line, e) ↦
        let (v, f, g) = >>=-eq-ok (dict_of value) battery_state e in
        let percent = battery_state_lem v line g in
        elim (outcome (written line)) [
          | inr (x, k) ↦ ground arith
          | inl (u, k) ↦
              let same : line ≡ l = ground arith in
              (
                subst (λ n. n.percent ≤ 100) same percent,
                ground arith,
                subst (λ n. written n ≡ ok u) same k,
              )
        ]
  ]
]
