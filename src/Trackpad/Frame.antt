-- ===== src/Trackpad/Frame.antt =====
-- The check of a frame (guest/input/trackpad.py, `validate`).
use ashacky.Base.{
  ltb, leb, if◌then◌else◌, mem, Result, ◌>>=◌, value_error, ok, err, ℕ, suc, ◌≤◌, ◌<◌, ◌≡◌, Bool,
  true, not, ◌||◌, Option, none, some, List, [], ◌∷◌,
}
use ashacky.Base.Int.{pos}
use ashacky.Base.Json.{Json, Items, get, int, float, arr, obj, nil, cons}

-- The floats: whether one lies in [0, 1], and `round(x * m)` of one that does, which is at most m.
pub record UnitFloat (F : Type 0) : Type 0 where
  pub in_unit : F → Bool
  pub scaled : F → ℕ → ℕ
  pub scaled_le : (x : F) (m : ℕ) → in_unit x ≡ true → scaled x m ≤ m

-- A coordinate is 0, 1 or a float.
pub data Coordinate (F : Type 0) : Type 0 where
  whole : ℕ → Coordinate F
  real : F → Coordinate F

pub record Point (F : Type 0) : Type 0 where
  pub ident : ℕ
  pub x : Coordinate F
  pub y : Coordinate F

module _ {F : Type 0} (u : UnitFloat F) where
  -- `type(n) in (int, float) and 0 <= n <= 1`
  unfoldable pub coordinate : Json F → Result (Coordinate F)
  coordinate (int (pos n)) = if leb n 1 then ok (whole n) else err value_error
  coordinate (float f) = if u.in_unit f then ok (real f) else err value_error
  coordinate _ = err value_error

  unfoldable pub point : List ℕ → Json F → Result (Point F)
  unfolding coordinate
  point seen (arr (cons (int (pos i)) (cons x (cons y nil)))) =
      if not (ltb i 65536) || mem i seen
      then err value_error
      else do a ← coordinate x; b ← coordinate y; ok (record { ident = i; x = a; y = b })
  point seen _ = err value_error

  -- The loop over the touches, with the set of the identities seen.
  unfoldable pub points : List ℕ → Items F → Result (List (Point F))
  unfolding point
  points seen nil = ok []
  points seen (cons p ps) = do q ← point seen p; qs ← points (q.ident ∷ seen) ps; ok (q ∷ qs)

  abbrev pub count_items : Items F → ℕ
  count_items nil = 0
  count_items (cons _ ps) = suc (count_items ps)

  -- `v.get('touches')`, a list of at most 10
  unfoldable pub touches : Option (Json F) → Result (List (Point F))
  unfolding points
  touches (some (arr ps)) = if ltb 10 (count_items ps) then err value_error else points [] ps
  touches _ = err value_error

  -- `v.get('buttons', 0)`
  unfoldable pub buttons_of : Option (Json F) → Result ℕ
  buttons_of none = ok 0
  buttons_of (some (int (pos n))) = if leb n 7 then ok n else err value_error
  buttons_of _ = err value_error

  unfoldable pub validate : Json F → Result (List (Point F) × ℕ)
  unfolding touches buttons_of
  validate (obj v) = do ps ← touches (get "touches" v); b ← buttons_of (get "buttons" v); ok (ps, b)
  validate _ = err value_error

  abbrev pub InUnit : Coordinate F → Type 0
  InUnit (whole n) = n ≤ 1
  InUnit (real f) = u.in_unit f ≡ true

  abbrev pub idents : List (Point F) → List ℕ
  idents [] = []
  idents (p ∷ ps) = p.ident ∷ idents ps

  abbrev pub IsPoint : Point F → Type 0
  IsPoint p = (p.ident < 65536) × InUnit p.x × InUnit p.y
