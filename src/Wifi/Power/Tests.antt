-- ===== src/Wifi/Power/Tests.antt =====
-- A run of the radio service, and its theorem at that run (guest/devices/wifi_power.py).
use ashacky.Base.{
  is_some, Result, os_error, err, ok, ℕ, ◌≡◌, refl, true, false, none, some, List, [], ◌∷◌,
}
use ashacky.Host.Status.{host_revision}
use ashacky.Wifi.Radio.{apply}
use ashacky.Wifi.Events.{ValueEq, next_events, transition, read_host, status_changed}
use ashacky.Wifi.Power.Defs.{host_changed, radio_ready, refresh_radio, finish, event, raised}
use ashacky.Wifi.Power.World.{
  Input, dispatch, step, run, status, fallback_fired, refresh_fired, ready, completed,
}
use ashacky.Wifi.Power.Submission.{Rising, start, run_submits_once}

-- The floats of parsed values do not matter here: there are none.
abbrev values : ValueEq ⊥
values = record { same = λ _ _. true; same_self = λ _. refl }

abbrev writes : ℕ → ℕ → Result (Unit {0})
writes index soft = ok tt

-- The host has the radio on; then the user blocks it, and the request for that fails.
abbrev toggle : List (Input ⊥)
toggle =
    fallback_fired
    ∷ status false true (err os_error) 0
    ∷ refresh_fired []
    ∷ completed [] (ok (some true, none))
    ∷ ready false (event 3 1 2 1 0 ∷ [])
    ∷ refresh_fired []
    ∷ completed [] (ok (some true, some (raised os_error)))
    ∷ refresh_fired []
    ∷ []

toggle_submits :
    let w = run values writes toggle (start 3 0) in
    (w.submitted ≡ 1 ∷ []) × (w.power.radio.pending ≡ none) × (w.power.radio.soft ≡ 0)
unfolding run step dispatch status_changed read_host refresh_radio finish radio_ready host_changed
    transition host_revision next_events apply
toggle_submits = (refl, refl, refl)

run_submits_once_example :
    let w = run values writes toggle (start 3 0) in
    Rising w.submitted × (w.power.busy ≡ is_some w.in_flight)
run_submits_once_example = run_submits_once values writes 3 0 toggle
