-- ===== src/Camera/Tests.antt =====
-- Two frames of the camera, the second of them stale (guest/devices/camera_shared.py).
use ashacky.Base.{length, take, Result, ok, ℕ, ◌≡◌, refl, Bool, true, some, List, [], ◌∷◌}
use ashacky.Base.Int.{pos}
use ashacky.Base.Json.{Fields, int, str, end, field}
use ashacky.Wifi.Events.{ValueEq}
use ashacky.Camera.{new_camera}
use ashacky.Camera.Session.{
  frames, session, acks, unmapped, Rises, frames-Rises, IsReleased, session-IsReleased,
}

abbrev any_value : ValueEq ⊥
any_value = record { same = λ _ _. true; same_self = λ _. refl }

-- the reply for a frame of slot 1
abbrev sequence_is : ℕ → Result (Fields ⊥)
sequence_is n = ok (field "slot" (int (pos 1)) (field "sequence" (int (pos n)) end))

abbrev copies : ℕ → ℕ → Bool
copies slot sequence = true

abbrev rounds : List (Result (Fields ⊥) × (ℕ → ℕ → Bool))
rounds = (sequence_is 4, copies) ∷ (sequence_is 4, copies) ∷ []

abbrev begin_reply : Result (Fields ⊥)
begin_reply = ok (field "stream" (str "s") end)

frames-Rises_example :
    let (c', actions, taken) = frames any_value rounds new_camera in
    Rises 0 taken × (acks actions ≡ take (length (acks actions)) (0 ∷ taken))
frames-Rises_example = frames-Rises any_value rounds new_camera

session-IsReleased_example :
    let (c, actions, taken) =
      session any_value (λ v. ok "S") (some 9) begin_reply rounds new_camera in
    IsReleased c × (unmapped actions ≡ 9 ∷ [])
session-IsReleased_example = session-IsReleased any_value (λ v. ok "S") (some 9) begin_reply rounds
