-- ===== src/Audio/Events/Live.antt =====
-- The audio service never falls silent (guest/devices/audio_events.py, `class AudioEvents`).
use ashacky.Base.{is_some, ◌≡◌, true, false, not, some}
use ashacky.Audio.Events.{no_timers, AudioEvents}

module _ {F : Type 0} where
  -- An open service that has read its status: it polls every second exactly while there is no revision of
  -- the host, and the expiry is armed exactly while there is one.
  abbrev pub IsLive : AudioEvents F → Type 0
  IsLive e =
      (e.closed ≡ false)
      × (e.mode ≡ some (is_some e.key))
      × (is_some e.timers.at_fallback ≡ not (is_some e.key))
      × (is_some e.timers.at_expiry ≡ is_some e.key)

  abbrev pub IsClosed : AudioEvents F → Type 0
  IsClosed e = (e.closed ≡ true) × (e.timers ≡ no_timers)
