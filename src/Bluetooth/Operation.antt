-- ===== src/Bluetooth/Operation.antt =====
-- A device operation of the host (guest/devices/bluetooth_management.py): the framing of a reply, and the
-- polls of `device_operation`. Times are milliseconds.
use ashacky.Base.{
  ltb, leb, ◌==◌, if◌then◌else◌, length, Bytes, Result, ◌>>=◌, outcome, runtime_error, type_error,
  timeout_error, attribute_error, err, ok, ℕ, ◌+◌, Bool, false, not, ◌||◌, Option, none, some, List,
  [], ◌∷◌, ◌++◌,
}
use ashacky.Base.Int.{pos}
use ashacky.Base.Json.{Json, Fields, get, item, int, obj, end}
use ashacky.Host.Status.{is_true, is_text}
pub mod Answered
mod Tests

-- `line` is what `readline(16385)` returned, `parse` is `json.loads`.
unfoldable pub ends_line : Bytes → Bool
ends_line [] = false
ends_line (b ∷ []) = b == 10
ends_line (b ∷ c ∷ bs) = ends_line (c ∷ bs)

unfoldable pub accepted_reply : {F : Type 0} → Json F → Result (Fields F)
accepted_reply (obj reply) = if is_true (get "ok" reply) then ok reply else err runtime_error
accepted_reply _ = err runtime_error

unfoldable pub read_reply : {F : Type 0} → (Bytes → Result (Json F)) → Bytes → Result (Fields F)
read_reply parse line =
    if ltb 16384 (length line) || not (ends_line line)
    then err runtime_error
    else parse line >>= accepted_reply

pub data Action : Type 0 where
  connect_device disconnect_device pair_device : Action

-- `75 if action == "bluetooth-pair" else 45` seconds
abbrev pub allowed : Action → ℕ
allowed pair_device = 75000
allowed _ = 45000

-- What is sent to the host and shown to the user.
pub data Sent (F : Type 0) : Type 0 where
  confirmation : Option (Json F) → Bool → Sent F
  passkey : ℕ → Sent F

-- What one round of the loop meets: the clock, the state of the host, what `confirm` answers, if there is
-- one, whether the answer was sent, and what `display` does, if there is one.
pub record Poll (F : Type 0) : Type 0 where
  pub time : ℕ
  pub state : Result (Fields F)
  pub confirm : Option (Result Bool)
  pub confirmed : Result (Unit {0})
  pub display : Option (Result (Unit {0}))

-- `state.get('operation', {})`
abbrev pub operation_of : {F : Type 0} → Option (Json F) → Result (Fields F)
operation_of none = ok end
operation_of (some (obj operation)) = ok operation
operation_of (some _) = err attribute_error

-- a code of six digits
unfoldable pub code_of : {F : Type 0} → Json F → Result ℕ
code_of (int (pos n)) = if leb n 999999 then ok n else err runtime_error
code_of _ = err runtime_error

-- `accepted`, and what is raised after it is sent
abbrev pub decision : Option (Result Bool) → Bool
decision (some (ok b)) = b
decision _ = false

abbrev pub raised_by : Option (Result Bool) → Result (Unit {0})
raised_by (some (err e)) = err e
raised_by _ = ok tt

-- A round leaves the loop with a result, or goes on with what is displayed.
pub data Round (F : Type 0) : Type 0 where
  stop : Result (Fields F) → Round F
  go_on : Option (Json F) → Round F

module _ {F : Type 0} where
  abbrev pub answer_code : Option (Json F) → Poll F → Result ℕ → List (Sent F) × Result (Unit {0})
  answer_code id p (err e) = ([], err e)
  answer_code id p (ok code) =
      (confirmation id (decision p.confirm) ∷ [], p.confirmed >>= λ u. raised_by p.confirm)

  -- the branch for a confirmation; the answer is sent whatever `confirm` does
  unfoldable pub answer :
      Option (Json F) → Poll F → Option (Json F) → List (Sent F) × Result (Unit {0})
  answer id p none = ([], ok tt)
  answer id p (some v) = answer_code id p (code_of v)

  abbrev pub show_code :
      Option (Json F)
      → Option (Result (Unit {0}))
      → Result ℕ
      → List (Sent F) × Result (Option (Json F))
  show_code v display (err e) = ([], err e)
  show_code v none (ok code) = ([], ok v)
  show_code v (some shown) (ok code) = (passkey code ∷ [], shown >>= λ u. ok v)

  abbrev pub is_text_complete : Fields F → Bool
  is_text_complete operation = is_text "complete" (get "state" operation)

  -- the end of a round
  unfoldable pub finish_poll : Fields F → Option (Json F) → Round F
  finish_poll operation displayed =
      if is_text_complete operation
      then if is_true (get "success" operation)
        then stop (ok operation)
        else stop (err runtime_error)
      else go_on displayed

  unfoldable pub after_show :
      Fields F → List (Sent F) → List (Sent F) × Result (Option (Json F)) → List (Sent F) × Round F
  after_show operation before (sent, err e) = (before ++ sent, stop (err e))
  after_show operation before (sent, ok displayed) =
      (before ++ sent, finish_poll operation displayed)

  abbrev pub state_of : Poll F → Result (Fields F)
  state_of p = p.state >>= λ state. operation_of (get "operation" state)

  abbrev pub after_round :
      List (Sent F) × Round F
      → (Option (Json F) → List (Sent F) × Option (Result (Fields F)))
      → List (Sent F) × Option (Result (Fields F))
  after_round (sent, stop result) next = (sent, some result)
  after_round (sent, go_on displayed) next =
      let (more, outcome) = next displayed in (sent ++ more, outcome)

module _ {F : Type 0} (same : Option (Json F) → Option (Json F) → Bool) where
  -- the branch for a passkey that is not displayed yet
  unfoldable pub show :
      Poll F → Option (Json F) → Option (Json F) → List (Sent F) × Result (Option (Json F))
  show p none displayed = ([], ok displayed)
  show p (some v) displayed =
      if same (some v) displayed
      then ([], ok displayed)
      else show_code (some v) p.display (code_of v)

  unfoldable pub after_answer :
      Poll F
      → Fields F
      → Option (Json F)
      → List (Sent F) × Result (Unit {0})
      → List (Sent F) × Round F
  after_answer p operation displayed (sent, err e) = (sent, stop (err e))
  after_answer p operation displayed (sent, ok u) =
      after_show operation sent (show p (get "passkey" operation) displayed)

  unfoldable pub poll_operation :
      Option (Json F) → Poll F → Fields F → Option (Json F) → List (Sent F) × Round F
  poll_operation id p operation displayed =
      if same (get "id" operation) id
      then after_answer p operation displayed (answer id p (get "confirmation" operation))
      else ([], stop (err runtime_error))

  unfoldable pub poll_round :
      Option (Json F) → Poll F → Result (Fields F) → Option (Json F) → List (Sent F) × Round F
  poll_round id p (err e) displayed = ([], stop (err e))
  poll_round id p (ok operation) displayed = poll_operation id p operation displayed

  -- The loop over the polls to come, which may be too few for an outcome; a poll at or after the deadline
  -- is the test of the loop that fails.
  unfoldable pub polls :
      Option (Json F)
      → ℕ
      → List (Poll F)
      → Option (Json F)
      → List (Sent F) × Option (Result (Fields F))
  polls id deadline [] displayed = ([], none)
  polls id deadline (p ∷ ps) displayed =
      let next : Option (Json F) → List (Sent F) × Option (Result (Fields F)) =
        λ d. polls id deadline ps d in
      if leb deadline p.time
      then ([], some (err timeout_error))
      else after_round (poll_round id p (state_of p) displayed) next

  -- The reply to the request that starts the operation, and the clock after it.
  unfoldable pub device_operation :
      Result (Fields F) → ℕ → Action → List (Poll F) → List (Sent F) × Option (Result (Fields F))
  device_operation started now action ps = elim (started >>= item "operation") [
    | err e ↦ ([], some (err e))
    | ok (obj operation) ↦ elim (item "id" operation) [
      | err e ↦ ([], some (err e))
      | ok id ↦ polls (some id) (now + allowed action) ps none
    ]
    | ok _ ↦ ([], some (err type_error))
  ]
