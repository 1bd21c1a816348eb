-- ===== src/Camera.antt =====
-- The camera's shared memory stream (guest/devices/camera_shared.py, `class CameraStream`). What the
-- host, the mapping and the copy answer are inputs; `pixels` tells which frame the scratch buffer holds.
use ashacky.Base.{
  ltb, leb, if◌then◌else◌, is_some, Result, ◌>>=◌, ◌>>◌, raise_if, value_error, os_error, key_error,
  err, ok, ℕ, String, Bool, not, ◌&&◌, Option, none, some, List, [], ◌∷◌, ◌++◌,
}
use ashacky.Base.Int.{pos}
use ashacky.Base.Json.{Json, Fields, get, null, int, str}
use ashacky.Host.Status.{is_true}
use ashacky.Wifi.Events.{ValueEq}
pub mod Session
mod Tests

pub record Camera : Type 0 where
  pub memory : Option ℕ
  pub stream : Option String
  pub sequence : ℕ
  pub pixels : Option (ℕ × ℕ)

abbrev pub new_camera : Camera
new_camera = record { memory = none; stream = none; sequence = 0; pixels = none }

-- the requests to the host, and the end of a mapping
pub data Action : Type 0 where
  camera_start : Action
  camera_next : Option String → ℕ → Action
  camera_stop : String → Action
  unmap : ℕ → Action

abbrev pub frame_bytes : ℕ
frame_bytes = 1382400

abbrev pub memory_bytes : ℕ
memory_bytes = 8388608

-- an `int` that is not negative; the others are out of range
unfoldable pub natural : {F : Type 0} → Option (Json F) → Option ℕ
natural (some (int (pos n))) = some n
natural _ = none

-- The slot and the sequence of a descriptor, if they are in range.
unfoldable pub descriptor : ℕ → Option ℕ → Option ℕ → Result (ℕ × ℕ)
descriptor last (some slot) (some sequence) =
    if ltb slot 3 && (ltb last sequence && leb sequence 0x7fffffff)
    then ok (slot, sequence)
    else err value_error
descriptor last (some _) none = err value_error
descriptor last none _ = err value_error

-- `frame`, of a copy that succeeds or not
unfoldable pub take_frame : (ℕ → ℕ → Bool) → Result (ℕ × ℕ) → Camera → Camera × Result ℕ
take_frame copied (err e) c = (c, err e)
take_frame copied (ok (slot, sequence)) c =
    if copied slot sequence
    then (record c { sequence = sequence; pixels = some (slot, sequence) }, ok sequence)
    else (c, err value_error)

abbrev pub unmap_of : Option ℕ → List Action
unmap_of none = []
unmap_of (some m) = unmap m ∷ []

abbrev pub stop_of : Option String → List Action
stop_of none = []
stop_of (some s) = camera_stop s ∷ []

-- An error of the last request is caught.
unfoldable pub exit : Camera → Camera × List Action
exit c = (
  record c { memory = none; stream = none; pixels = none },
  stop_of c.stream ++ unmap_of c.memory,
)

module _ {F : Type 0} (q : ValueEq F) where
  abbrev pub is_number : ℕ → Option (Json F) → Bool
  is_number n v = q.same v (some (int (pos n)))

  abbrev pub is_string : Option String → Option (Json F) → Bool
  is_string none v = q.same v (some null)
  is_string (some s) v = q.same v (some (str s))

  unfoldable pub has_frame_shape : Fields F → Bool
  has_frame_shape reply =
      is_number 1280 (get "width" reply)
      && is_number 720 (get "height" reply)
      && is_number frame_bytes (get "bytes" reply)
      && is_string (some "nv12") (get "format" reply)

  -- the checks of `frame`, before the copy
  unfoldable pub check_frame : Camera → Fields F → Result (ℕ × ℕ)
  check_frame c reply = do
    raise_if (not (is_string c.stream (get "stream" reply))) value_error
    found ← descriptor c.sequence (natural (get "slot" reply)) (natural (get "sequence" reply))
    raise_if (not (has_frame_shape reply)) value_error
    ok found

  unfoldable pub frame :
      Result (Fields F) → (ℕ → ℕ → Bool) → Camera → Camera × List Action × Result ℕ
  frame reply copied c =
      let (c', result) = take_frame copied (reply >>= check_frame c) c in
      (c', camera_next c.stream c.sequence ∷ [], result)

  -- the reply to `camera-start`; `uuid` is `str(uuid.UUID(...)).upper()`
  unfoldable pub check_start :
      (Json F → Result String) → Fields F → Option String × Result (Unit {0})
  check_start uuid reply = elim (get "stream" reply) [
    | none ↦ (none, err key_error)
    | some v ↦ elim (uuid v) [
      | err e ↦ (none, err e)
      | ok s ↦ (
        some s,
        raise_if
            (not (
              is_number 1280 (get "width" reply)
              && is_number 720 (get "height" reply)
              && is_string (some "nv12") (get "format" reply)
              && is_number memory_bytes (get "memoryBytes" reply)))
            value_error,
      )
    ]
  ]

  abbrev pub started :
      (Json F → Result String) → Result (Fields F) → Option String × Result (Unit {0})
  started uuid (err e) = (none, err e)
  started uuid (ok reply) = check_start uuid reply

  -- `__enter__`: an exception after the mapping runs `__exit__` first
  unfoldable pub enter :
      (Json F → Result String)
      → Option ℕ
      → Result (Fields F)
      → Camera
      → Camera × List Action × Result (Unit {0})
  enter uuid none reply c = (record c { memory = none }, [], err os_error)
  enter uuid (some m) reply c =
      let (stream, result) = started uuid reply in
      let c' = record c { memory = some m; stream = if is_some stream then stream else c.stream } in
      elim result [
        | ok _ ↦ (c', camera_start ∷ [], ok tt)
        | err e ↦ let (c'', actions) = exit c' in (c'', camera_start ∷ actions, err e)
      ]
