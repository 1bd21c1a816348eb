-- ===== src/Audio/Events.antt =====
-- The events of the audio service (guest/devices/audio_events.py, `class AudioEvents`): the revision of
-- the host, the timers and the sources. A timer is its name and its delay in milliseconds; the main loop
-- fires armed timers. `changed` is a call, and what it does to the events is a step of its own.
use ashacky.Base.{
  ltb, if◌then◌else◌, is_some, Error, Result, raise_if, runtime_error, ℕ, ◌*◌, Bool, true, false,
  not, ◌&&◌, ◌||◌, Option, none, some, List, [], ◌∷◌, ◌++◌,
}
use ashacky.Host.Status.{Key, is_false, Snapshot, host_revision}
use ashacky.Wifi.Events.{ValueEq, key_eq}
use ashacky.Bluetooth.Events.{mode_is}
pub mod Live
mod Tests

pub data Timer : Type 0 where
  reconcile retry fallback expiry watch duration : Timer

pub record Timers : Type 0 where
  pub at_reconcile : Option ℕ
  pub at_retry : Option ℕ
  pub at_fallback : Option ℕ
  pub at_expiry : Option ℕ
  pub at_watch : Option ℕ
  pub at_duration : Option ℕ

abbrev pub delay : Timer → Timers → Option ℕ
delay reconcile t = t.at_reconcile
delay retry t = t.at_retry
delay fallback t = t.at_fallback
delay expiry t = t.at_expiry
delay watch t = t.at_watch
delay duration t = t.at_duration

abbrev pub set_timer : Timer → Option ℕ → Timers → Timers
set_timer reconcile v t = record t { at_reconcile = v }
set_timer retry v t = record t { at_retry = v }
set_timer fallback v t = record t { at_fallback = v }
set_timer expiry v t = record t { at_expiry = v }
set_timer watch v t = record t { at_watch = v }
set_timer duration v t = record t { at_duration = v }

abbrev pub no_timers : Timers
no_timers = record {
  at_reconcile = none;
  at_retry = none;
  at_fallback = none;
  at_expiry = none;
  at_watch = none;
  at_duration = none;
}

-- `key` is `host_key`, `dirty` is `host_dirty`, `monitored` tells of the source of the monitor's pipe, and
-- `quitting` of a call of `loop.quit`
pub record AudioEvents (F : Type 0) : Type 0 where
  pub key : Option (Key F)
  pub dirty : Bool
  pub mode : Option Bool
  pub error : Option Error
  pub timers : Timers
  pub monitored : Bool
  pub watcher : Bool
  pub quitting : Bool
  pub closed : Bool

pub data Call : Type 0 where
  changed : Call

module _ {F : Type 0} where
  abbrev pub new_audio : AudioEvents F
  new_audio = record {
    key = none;
    dirty = true;
    mode = none;
    error = none;
    timers = no_timers;
    monitored = false;
    watcher = false;
    quitting = false;
    closed = false;
  }

  abbrev pub remove_source : Timer → AudioEvents F → AudioEvents F
  remove_source name e = record e { timers = set_timer name none e.timers }

  abbrev pub later : Timer → ℕ → AudioEvents F → AudioEvents F
  later name milliseconds e =
      if is_some (delay name e.timers) || e.closed
      then e
      else record e { timers = set_timer name (some milliseconds) e.timers }

  abbrev pub notify : AudioEvents F → AudioEvents F
  notify e = later reconcile 40 e

  -- `self.host_key is not None and self.host_key[1] is False`
  abbrev pub is_inactive : Option (Key F) → Bool
  is_inactive none = false
  is_inactive (some k) = is_false k.active

  unfoldable pub retry_later : AudioEvents F → AudioEvents F
  retry_later e = if is_inactive e.key then e else later retry 1000 e

  unfoldable pub refresh_host : AudioEvents F → AudioEvents F
  refresh_host e = notify (record e { dirty = true })

  unfoldable pub fallback_tick : AudioEvents F → AudioEvents F
  fallback_tick e = later fallback 1000 (refresh_host e)

  -- the revision that `audioRevision` is
  unfoldable pub audio_revision : Result (Snapshot F) → ℕ → Option (Key F) × ℕ
  audio_revision snapshot now = host_revision "audioRevision" snapshot now

  -- `if mode != self.mode`
  unfoldable pub enter_mode : Bool → AudioEvents F → AudioEvents F
  enter_mode keyed e = if mode_is keyed e.mode then e else record e { mode = some keyed }

  module _ (q : ValueEq F) where
    -- `if key`, on the revision and the time it is good for
    unfoldable pub arm_host : Option (Key F) → ℕ → AudioEvents F → AudioEvents F
    arm_host none remaining e = later fallback 1000 e
    arm_host (some k) remaining e =
        let e' = remove_source fallback e in
        later expiry remaining (if key_eq q (some k) e'.key then e' else refresh_host e')

    unfoldable pub read_revision : Option (Key F) × ℕ → AudioEvents F → AudioEvents F
    read_revision (key, remaining) e =
        record (arm_host key remaining (enter_mode (is_some key) (remove_source expiry e))) {
          key = key;
        }

    unfoldable pub read_host : Result (Snapshot F) → ℕ → AudioEvents F → AudioEvents F
    read_host snapshot now e = read_revision (audio_revision snapshot now) e

    -- `watched` tells whether the directory could be watched
    unfoldable pub watch_status : Bool → Result (Snapshot F) → ℕ → AudioEvents F → AudioEvents F
    watch_status watched snapshot now e =
        let e' = record e { watcher = watched } in
        read_host snapshot now (if watched then e' else later watch 1000 e')

    -- whether the directory, or the file, is among the changed paths
    unfoldable pub status_changed :
        Bool → Bool → Result (Snapshot F) → ℕ → AudioEvents F → AudioEvents F
    status_changed directory file snapshot now e =
        let e' = if directory then later watch 1000 e else e in
        if file || directory then read_host snapshot now e' else e'

    -- `run`, up to its main loop
    unfoldable pub begin : ℕ → Bool → Result (Snapshot F) → ℕ → AudioEvents F → AudioEvents F
    begin seconds watched snapshot now e =
        let e' = record e { monitored = true } in
        watch_status watched snapshot now
          (if ltb 0 seconds then later duration (seconds * 1000) e' else e')

    -- `invoke`, of an armed timer, with the callback that it was armed with
    unfoldable pub invoke :
        Timer → Bool → Result (Snapshot F) → ℕ → AudioEvents F → AudioEvents F × List Call
    invoke reconcile watched snapshot now e = (e, changed ∷ [])
    invoke retry watched snapshot now e = (refresh_host e, [])
    invoke fallback watched snapshot now e = (fallback_tick e, [])
    invoke expiry watched snapshot now e = (read_host snapshot now e, [])
    invoke watch watched snapshot now e = (watch_status watched snapshot now e, [])
    invoke duration watched snapshot now e = (record e { quitting = true }, [])

    unfoldable pub fire :
        Timer → Bool → Result (Snapshot F) → ℕ → AudioEvents F → AudioEvents F × List Call
    fire name watched snapshot now e =
        if is_some (delay name e.timers) && not e.closed
        then invoke name watched snapshot now (remove_source name e)
        else (e, [])

  -- what the end of the main loop raises
  unfoldable pub finish : AudioEvents F → Result (Unit {0})
  finish e = raise_if (is_some e.error) runtime_error

  unfoldable pub quit : AudioEvents F → AudioEvents F
  quit e = record e { quitting = true }

  -- an error of `receive`, which ends the source of the pipe and the main loop
  unfoldable pub disconnect : Error → AudioEvents F → AudioEvents F
  disconnect x e = record e { error = some x; monitored = false; quitting = true }

  unfoldable pub close : AudioEvents F → AudioEvents F
  close e = record e { timers = no_timers; monitored = false; closed = true }

  -- the reading of the host in `reconcile` of guest/devices/audio_pipewire.py
  abbrev pub clean : AudioEvents F → AudioEvents F
  clean e = record e { dirty = false }

-- what happens to the events, in any order
pub data Event (F : Type 0) : Type 0 where
  changed_status : Bool → Bool → Result (Snapshot F) → ℕ → Event F
  fired : Timer → Bool → Result (Snapshot F) → ℕ → Event F
  notified retried cleaned signalled stopped : Event F
  disconnected : Error → Event F

module _ {F : Type 0} (q : ValueEq F) where
  unfoldable pub handle : Event F → AudioEvents F → AudioEvents F × List Call
  handle (changed_status directory file snapshot now) e =
      (status_changed q directory file snapshot now e, [])
  handle (fired name watched snapshot now) e = fire q name watched snapshot now e
  handle notified e = (notify e, [])
  handle retried e = (retry_later e, [])
  handle cleaned e = (clean e, [])
  handle signalled e = (quit e, [])
  handle stopped e = (close e, [])
  handle (disconnected x) e = (disconnect x e, [])

  unfoldable pub run : List (Event F) → AudioEvents F → AudioEvents F × List Call
  run [] e = (e, [])
  run (x ∷ xs) e =
      let (e', calls) = handle x e in let (e'', more) = run xs e' in (e'', calls ++ more)
