-- ===== src/Audio/Events/Tests.antt =====
-- A run of the audio service (guest/devices/audio_events.py): it polls, a revision of the host arrives and
-- expires, and the service is closed.
use ashacky.Base.{os_error, err, ok, ◌≡◌, refl, true, false, none, some, List, [], ◌∷◌}
use ashacky.Base.Json.{bool, str, end, field}
use ashacky.Host.Status.{Snapshot, host_revision}
use ashacky.Audio.Events.{
  AudioEvents, new_audio, refresh_host, fallback_tick, audio_revision, enter_mode, arm_host,
  read_revision, read_host, watch_status, status_changed, begin, invoke, fire, Event, handle, run,
  reconcile, fallback, expiry, changed, changed_status, fired, cleaned,
}
use ashacky.Wifi.Events.{ValueEq}

abbrev plain_values : ValueEq ⊥
plain_values = record { same = λ _ _. true; same_self = λ _. refl }

abbrev confirmed : Snapshot ⊥
confirmed = record {
  mtime = 7000;
  value =
      field "ok" (bool true)
        (field "statusTransport" (str "virtio-serial") (field "audioRevision" (str "r1") end));
}

abbrev story : List (Event ⊥)
story =
    fired fallback true (err os_error) 100
    ∷ fired reconcile true (err os_error) 140
    ∷ cleaned
    ∷ changed_status false true (ok confirmed) 8000
    ∷ fired reconcile true (ok confirmed) 8040
    ∷ cleaned
    ∷ fired expiry true (ok confirmed) 40000
    ∷ []

abbrev started : AudioEvents ⊥
started = begin plain_values 600 true (err os_error) 0 new_audio

story-live :
    let (e, calls) = run plain_values story started in
    (calls ≡ changed ∷ changed ∷ [])
    × (e.dirty ≡ false)
    × (e.timers.at_fallback ≡ some 1000)
    × (e.timers.at_expiry ≡ none)
    × (e.timers.at_duration ≡ some 600000)
unfolding run handle begin watch_status fire read_host read_revision arm_host audio_revision
    host_revision enter_mode invoke fallback_tick refresh_host status_changed
story-live = (refl, refl, refl, refl, refl)
