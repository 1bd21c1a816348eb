-- ===== src/Trackpad/Checks.antt =====
-- What `validate` lets through (guest/input/trackpad.py).
use ashacky.Base.{
  ◌==◌, Bool-cases, length, All, mem, Error, outcome, ok, err, ℕ, ◌≤◌, ◌≡◌, ap, inl, inr, true,
  false, Option, none, some, List, [], ◌∷◌, arith,
}
use ashacky.Base.Int.{pos}
use ashacky.Base.Json.{Json, Items, get, int, float, arr, obj, nil, cons}
use ashacky.Base.Distinct.{Distinct}
use ashacky.Trackpad.Frame.{
  UnitFloat, Coordinate, Point, coordinate, point, points, count_items, touches, buttons_of,
  validate, InUnit, idents, IsPoint,
}

clash : {A : Type 0} {e : Error} {a : A} → err e ≡ ok a → ⊥
clash h = cc

new_and_apart :
    (k i : ℕ) (seen rest : List ℕ)
    → mem k seen ≡ true
    → mem i seen ≡ false
    → mem k rest ≡ false
    → mem k (i ∷ rest) ≡ false
new_and_apart k i seen rest m n r = elim (Bool-cases (k == i)) [
  | inl e ↦ let same : k ≡ i = ground arith in cc (ap (λ j. mem j seen) same)
  | inr e ↦ ground arith
]

module _ {F : Type 0} (u : UnitFloat F) where
  coordinate_sound : (v : Json F) (c : Coordinate F) → coordinate u v ≡ ok c → InUnit u c
  unfolding coordinate
  coordinate_sound (int (pos n)) c h = ground arith
  coordinate_sound (float f) c h = ground arith
  coordinate_sound _ c h = cc

  point_sound :
      (seen : List ℕ) (v : Json F) (p : Point F)
      → point u seen v ≡ ok p
      → IsPoint u p × (mem p.ident seen ≡ false)
  unfolding point
  point_sound seen (arr (cons (int (pos i)) (cons x (cons y nil)))) p h =
      elim (outcome (coordinate u x)) [
        | inr (e, f) ↦ ground arith
        | inl (a, f) ↦ elim (outcome (coordinate u y)) [
          | inr (e, g) ↦ ground arith
          | inl (b, g) ↦ ground (arith, coordinate_sound x a f, coordinate_sound y b g)
        ]
      ]
  point_sound seen _ p h = cc

  -- The points are distinct among themselves, and from those seen.
  points_sound :
      (seen : List ℕ) (ps : Items F) (qs : List (Point F))
      → points u seen ps ≡ ok qs
      → All (IsPoint u) qs
        × Distinct (idents u qs)
        × ((k : ℕ) → mem k seen ≡ true → mem k (idents u qs) ≡ false)
        × (length qs ≡ count_items u ps)
  unfolding points
  points_sound seen nil qs h = ground arith
  points_sound seen (cons p ps) qs h = elim (outcome (point u seen p)) [
    | inr (e, f) ↦ absurd (clash (rw (points, f) at h))
    | inl (q, f) ↦ elim (outcome (points u (q.ident ∷ seen) ps)) [
      | inr (e, g) ↦ absurd (clash (rw (points, f, g) at h))
      | inl (rest, g) ↦
          let (valid, new) = point_sound seen p q f in
          let (all_valid, distinct, apart, count) = points_sound (q.ident ∷ seen) ps rest g in
          let same : q ∷ rest ≡ qs = ground arith in
          rw (← same) (
            (valid, all_valid),
            (apart q.ident (ground arith), distinct),
            (λ k m. new_and_apart k q.ident seen (idents u rest) m new (apart k (ground arith))),
            omega (arith, count),
          )
    ]
  ]

  touches_sound :
      (o : Option (Json F)) (qs : List (Point F))
      → touches u o ≡ ok qs
      → All (IsPoint u) qs × Distinct (idents u qs) × (length qs ≤ 10)
  unfolding touches
  touches_sound (some (arr ps)) qs h =
      let (valid, distinct, _, count) = points_sound [] ps qs (ground arith) in
      (valid, distinct, ground arith)
  touches_sound _ qs h = cc

  buttons_sound : (o : Option (Json F)) (b : ℕ) → buttons_of u o ≡ ok b → b ≤ 7
  unfolding buttons_of
  buttons_sound none b h = ground arith
  buttons_sound (some (int (pos n))) b h = ground arith
  buttons_sound _ b h = cc

  -- A frame that passes has at most ten points, with distinct identities below 65536 and coordinates
  -- of the unit interval, and buttons of three bits.
  pub validate_sound :
      (v : Json F) (ps : List (Point F)) (b : ℕ)
      → validate u v ≡ ok (ps, b)
      → All (IsPoint u) ps × Distinct (idents u ps) × (length ps ≤ 10) × (b ≤ 7)
  unfolding validate
  validate_sound (obj v) ps b h = elim (outcome (touches u (get "touches" v))) [
    | inr (e, f) ↦ absurd (clash (rw (validate, f) at h))
    | inl (qs, f) ↦ elim (outcome (buttons_of u (get "buttons" v))) [
      | inr (e, g) ↦ absurd (clash (rw (validate, f, g) at h))
      | inl (c, g) ↦
          let same : qs ≡ ps = ground arith in
          let (valid, distinct, ten) = touches_sound (get "touches" v) qs f in
          rw (← same) (valid, distinct, ten, ground (arith, buttons_sound (get "buttons" v) c g))
    ]
  ]
  validate_sound _ ps b h = cc
