-- ===== src/Bluetooth/Operation/Tests.antt =====
-- A pairing that asks for a confirmation (guest/devices/bluetooth_management.py).
use text.Mathlib.Text.{◌==◌ as str_eq}
use ashacky.Base.{◌==◌, is_some, ok, ℕ, ◌≡◌, refl, Bool, true, false, Option, none, some, [], ◌∷◌}
use ashacky.Base.Int.{pos}
use ashacky.Base.Json.{Json, Fields, bool, int, str, obj, end, field}
use ashacky.Bluetooth.Operation.{
  Poll, code_of, answer, finish_poll, after_show, show, after_answer, poll_operation, poll_round,
  polls, confirmation,
}
use ashacky.Bluetooth.Operation.Answered.{polls_end}

abbrev same_text : Option (Json ⊥) → Option (Json ⊥) → Bool
same_text (some (str s)) (some (str t)) = str_eq s t
same_text (some (int (pos m))) (some (int (pos n))) = m == n
same_text none none = true
same_text _ _ = false

abbrev operation : Fields ⊥ → Fields ⊥
operation more = field "operation" (obj (field "id" (str "7") more)) end

abbrev poll_at : ℕ → Fields ⊥ → Poll ⊥
poll_at time state = record {
  time = time;
  state = ok state;
  confirm = some (ok true);
  confirmed = ok tt;
  display = none;
}

abbrev asking : Poll ⊥
asking = poll_at 1000 (operation (field "confirmation" (int (pos 123456)) end))

abbrev done : Poll ⊥
done = poll_at 1500 (operation (field "state" (str "complete") (field "success" (bool true) end)))

abbrev result : Fields ⊥
result = field "id" (str "7") (field "state" (str "complete") (field "success" (bool true) end))

paired :
    polls same_text (some (str "7")) 75000 (asking ∷ done ∷ []) none
    ≡ (confirmation (some (str "7")) true ∷ [], some (ok result))
unfolding polls poll_round poll_operation after_answer answer code_of after_show show finish_poll
paired = refl

polls_end_example :
    is_some (polls same_text (some (str "7")) 75000 (asking ∷ poll_at 75000 end ∷ []) none).1 ≡ true
polls_end_example =
    polls_end same_text (some (str "7")) 75000 (asking ∷ poll_at 75000 end ∷ []) none refl
