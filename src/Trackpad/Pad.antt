-- ===== src/Trackpad/Pad.antt =====
-- The contacts of the device (guest/input/trackpad.py, `class Pad`).
use ashacky.Base.{
  ltb, ◌==◌, if◌then◌else◌, length, find, mem, ℕ, ◌*◌, ◌/◌, ◌%◌, min, Bool, not, Option, none, some,
  List, [], ◌∷◌, ◌++◌,
}
use ashacky.Trackpad.Frame.{UnitFloat, Coordinate, Point, idents, whole, real}

-- The codes that are written, and what `u.write` and `u.syn` get. A released slot has the tracking
-- id -1, which is `release` here.
pub data Axis : Type 0 where
  mt_slot mt_tracking_id mt_position_x mt_position_y abs_x abs_y : Axis

pub data Key : Type 0 where
  touch finger doubletap tripletap quadtap quinttap left right middle : Key

pub data Write : Type 0 where
  abs : Axis → ℕ → Write
  release : Write
  key : Key → Bool → Write
  syn : Write

-- `slots` is the dict from identities to slots, in insertion order.
pub record Pad : Type 0 where
  pub slots : List (ℕ × ℕ)
  pub buttons : ℕ

abbrev pub keys : List (ℕ × ℕ) → List ℕ
keys [] = []
keys ((k, _) ∷ s) = k ∷ keys s

abbrev pub values : List (ℕ × ℕ) → List ℕ
values [] = []
values ((_, n) ∷ s) = n ∷ values s

abbrev pub slot_of : ℕ → List (ℕ × ℕ) → Option ℕ
slot_of k [] = none
slot_of k ((j, n) ∷ s) = let rest = slot_of k s in if k == j then some n else rest

-- The first loop: the contacts that are gone give up their slots.
unfoldable pub release_gone : List ℕ → List (ℕ × ℕ) → List (ℕ × ℕ) × List Write
release_gone ids [] = ([], [])
release_gone ids ((k, n) ∷ s) =
    let (kept, ws) = release_gone ids s in
    if mem k ids then ((k, n) ∷ kept, ws) else (kept, abs mt_slot n ∷ release ∷ ws)

-- `range(10)`
abbrev pub all_slots : List ℕ
all_slots = 0 ∷ 1 ∷ 2 ∷ 3 ∷ 4 ∷ 5 ∷ 6 ∷ 7 ∷ 8 ∷ 9 ∷ []

-- `next(n for n in range(10) if n not in self.slots.values())`, `none` for StopIteration
unfoldable pub free_slot : List (ℕ × ℕ) → Option ℕ
free_slot s = find (λ n. not (mem n (values s))) all_slots

module _ {F : Type 0} (u : UnitFloat F) where
  -- `round(c * m)`
  abbrev pub position : Coordinate F → ℕ → ℕ
  position (whole n) m = n * m
  position (real f) m = u.scaled f m

  abbrev pub positions : Point F → List Write
  positions p = abs mt_position_x (position p.x 13000) ∷ abs mt_position_y (position p.y 8000) ∷ []

  -- One round of the second loop.
  unfoldable pub place : Point F → List (ℕ × ℕ) → Option (List (ℕ × ℕ) × List Write)
  unfolding free_slot
  place p s = elim (slot_of p.ident s) [
    | some n ↦ some (s, abs mt_slot n ∷ positions p)
    | none ↦ elim (free_slot s) [
      | none ↦ none
      | some n ↦
          some (s ++ (p.ident, n) ∷ [], abs mt_slot n ∷ abs mt_tracking_id p.ident ∷ positions p)
    ]
  ]

  unfoldable pub place_all : List (Point F) → List (ℕ × ℕ) → Option (List (ℕ × ℕ) × List Write)
  unfolding place
  place_all [] s = some (s, [])
  place_all (p ∷ ps) s = elim (place p s) [
    | none ↦ none
    | some (s', ws) ↦ elim (place_all ps s') [ none ↦ none | some (s'', vs) ↦ some (s'', ws ++ vs) ]
  ]

  abbrev pub pointer : List (Point F) → List Write
  pointer [] = []
  pointer (p ∷ ps) = abs abs_x (position p.x 13000) ∷ abs abs_y (position p.y 8000) ∷ []

  abbrev pub tool_keys : ℕ → List Write
  tool_keys n =
      key finger (min 5 n == 1)
      ∷ key doubletap (min 5 n == 2)
      ∷ key tripletap (min 5 n == 3)
      ∷ key quadtap (min 5 n == 4)
      ∷ key quinttap (min 5 n == 5)
      ∷ []

  -- `buttons & (1 << bit)`
  abbrev pub button_keys : ℕ → List Write
  button_keys b =
      key left (b % 2 == 1) ∷ key right (b / 2 % 2 == 1) ∷ key middle (b / 4 % 2 == 1) ∷ []

  abbrev pub key_writes : List (Point F) → ℕ → List Write
  key_writes ps b =
      key touch (ltb 0 (length ps)) ∷ tool_keys (length ps) ++ button_keys b ++ syn ∷ []

  -- The new contacts and what was written; `none` if no slot was free.
  unfoldable pub frame : List (Point F) → ℕ → Pad → Option (Pad × List Write)
  unfolding release_gone place_all
  frame ps b pad =
      let (kept, ws) = release_gone (idents u ps) pad.slots in
      elim (place_all ps kept) [
        | none ↦ none
        | some (s, vs) ↦
            some (record { slots = s; buttons = b }, ws ++ (vs ++ (pointer ps ++ key_writes ps b)))
      ]
