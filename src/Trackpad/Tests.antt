-- ===== src/Trackpad/Tests.antt =====
-- Frames and rounds of the touchpad service on small inputs (guest/input/trackpad.py).
use ashacky.Base.{
  leb, length, All, Bytes, mem, Result, ok, ℕ, ◌+◌, ◌*◌, ◌/◌, ◌≤◌, ◌≡◌, refl, true, false, some,
  List, [], ◌∷◌, ◌++◌, arith,
}
use ashacky.Base.Int.{pos}
use ashacky.Base.Json.{Json, int, float, arr, obj, nil, cons, end, field}
use ashacky.Base.Distinct.{Distinct}
use ashacky.Trackpad.Frame.{UnitFloat, Point, validate, idents, IsPoint, whole, real}
use ashacky.Trackpad.Pad.{Write, Pad, keys, key_writes, frame}
use ashacky.Trackpad.Slots.{IsValid}
use ashacky.Trackpad.Contacts.{frame-contacts, releases}
use ashacky.Trackpad.Checks.{validate_sound}
use ashacky.Trackpad.Serve.{Loop, Reply, held, poll, feed, sent, frame_writes}
use ashacky.Trackpad.Held.{Sound, poll-held}
use ashacky.Trackpad.Lines.{feed-Sound}

scaled_small : (f m : ℕ) → leb f 1000 ≡ true → f * m / 1000 ≤ m
scaled_small f m h =
    let small : f ≤ 1000 = ground arith in let le : f * m ≤ 1000 * m = grind arith in omega arith

-- Floats as thousandths.
abbrev thousandths : UnitFloat ℕ
thousandths = record {
  in_unit = λ f. leb f 1000;
  scaled = λ f m. f * m / 1000;
  scaled_le = scaled_small;
}

abbrev two_fingers : Json ℕ
two_fingers = obj (
    field "touches"
      (arr (
        cons (arr (cons (int (pos 7)) (cons (float 500) (cons (int (pos 1)) nil))))
          (cons (arr (cons (int (pos 9)) (cons (float 20) (cons (float 30) nil)))) nil)))
      (field "buttons" (int (pos 1)) end))

abbrev points_of_two : List (Point ℕ)
points_of_two =
    record { ident = 7; x = real 500; y = whole 1 }
    ∷ record { ident = 9; x = real 20; y = real 30 }
    ∷ []

two_fingers_pass : validate thousandths two_fingers ≡ ok (points_of_two, 1)
unfolding validate
two_fingers_pass = refl

-- Contact 7 is new, contact 9 keeps slot 4, and contact 3 goes.
abbrev before : Pad
before = record { slots = (3, 0) ∷ (9, 4) ∷ []; buttons = 0 }

before-IsValid : IsValid before.slots
before-IsValid = ground arith

validate_sound_example :
    All (IsPoint thousandths) points_of_two
    × Distinct (idents thousandths points_of_two)
    × (length points_of_two ≤ 10)
    × (1 ≤ 7)
validate_sound_example = validate_sound thousandths two_fingers points_of_two 1 two_fingers_pass

frame-contacts_example :
    (pad' : Pad) × (ws : List Write) × (frame thousandths points_of_two 1 before ≡ some (pad', ws))
    × IsValid pad'.slots
    × ((j : ℕ) → mem j (keys pad'.slots) ≡ mem j (7 ∷ 9 ∷ []))
    × (pad'.buttons ≡ 1)
frame-contacts_example =
    frame-contacts thousandths points_of_two 1 before (omega arith) before-IsValid

abbrev loop_held : Loop
loop_held = record { pad = before; buf = []; last = 100; next_ready = 5000; blocked = false }

poll-held_example : held (record { slots = []; buttons = 0 }) ≡ false
unfolding poll frame
poll-held_example =
    poll-held thousandths 1100 1100 sent loop_held
      (record loop_held { pad = record { slots = []; buttons = 0 } })
      (frame_writes (releases before.slots ++ key_writes thousandths [] 0) ∷ []) refl (omega arith)

-- a parser that takes every line for the two fingers
abbrev parser : Bytes → Result (Json ℕ)
parser line = ok two_fingers

abbrev clock : ℕ → ℕ
clock k = 200 + k

abbrev replies : ℕ → Reply
replies k = sent

feed-Sound_example : Sound (feed thousandths parser clock replies (1 ∷ 10 ∷ 2 ∷ []) loop_held)
feed-Sound_example =
    feed-Sound thousandths parser clock replies (1 ∷ 10 ∷ 2 ∷ []) loop_held before-IsValid
