-- ===== src/Audio/Stream/Tests.antt =====
-- A stream of empty arrays, cut in the middle of one (guest/devices/audio_events.py, `JSONStream`).
use ashacky.Base.{
  ◌==◌, if◌then◌else◌, Bool-cases, length, ok, ℕ, ◌≤◌, ◌≡◌, refl, inl, inr, Bool, ◌&&◌, Option,
  none, some, List, [], ◌∷◌, ◌++◌, arith,
}
use ashacky.Base.Json.{Json, Items, arr, nil}
use ashacky.Audio.Stream.{RawDecode, decode_all, feed_stream}
use ashacky.Audio.Stream.Pieces.{before_all, feed_stream-append}

-- a decoder that reads `[]` and nothing else
abbrev brackets : List ℕ → Option (Json ⊥ × ℕ)
brackets [] = none
brackets (c ∷ []) = none
brackets (c ∷ d ∷ cs) = if (c == 91) && (d == 93) then some (arr nil, 2) else none

abbrev newline : ℕ → Bool
newline c = c == 10

brackets_ends :
    (t : List ℕ) (v : Json ⊥) (e : ℕ) → brackets t ≡ some (v, e) → (1 ≤ e) × (e ≤ length t)
brackets_ends [] v e h = ground arith
brackets_ends (c ∷ []) v e h = ground arith
brackets_ends (c ∷ d ∷ cs) v e h = elim (Bool-cases ((c == 91) && (d == 93))) [
  | inl y ↦ ground arith
  | inr n ↦ ground arith
]

brackets-append :
    (t u : List ℕ) (es : Items ⊥) (e : ℕ)
    → brackets t ≡ some (arr es, e)
    → brackets (t ++ u) ≡ some (arr es, e)
brackets-append [] u es e h = ground arith
brackets-append (c ∷ []) u es e h = ground arith
brackets-append (c ∷ d ∷ cs) u es e h = h

abbrev empty_arrays : RawDecode ⊥
empty_arrays = record {
  raw = brackets;
  positive = λ t v e h. (brackets_ends t v e h).0;
  within = λ t v e h. (brackets_ends t v e h).1;
  extends = brackets-append;
}

-- an array, and the first character of another
abbrev first_piece : List ℕ
first_piece = 91 ∷ 93 ∷ 10 ∷ 91 ∷ []

abbrev second_piece : List ℕ
second_piece = 93 ∷ 10 ∷ []

first_piece_read : feed_stream newline brackets 100 (ok first_piece) [] ≡ ok (nil ∷ [], 91 ∷ [])
unfolding feed_stream decode_all
first_piece_read = refl

feed_stream-append_example :
    feed_stream newline brackets 100 (ok (first_piece ++ second_piece)) []
    ≡ before_all newline empty_arrays
        (nil ∷ [])
        (feed_stream newline brackets 100 (ok second_piece) (91 ∷ []))
feed_stream-append_example =
    feed_stream-append newline empty_arrays 100 [] first_piece second_piece (91 ∷ []) (nil ∷ [])
      (omega arith) first_piece_read (omega arith)
