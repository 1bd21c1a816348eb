-- ===== src/Bluetooth/Events.antt =====
-- Bluetooth invalidations (guest/devices/bluetooth_events.py, `class BluetoothEvents`). A timer is its
-- name and its delay in milliseconds; the main loop fires armed timers. The callbacks `changed` and
-- `heartbeat` are calls, which come last in the methods that make them; what they do to the events,
-- by `notify` and `retry`, is a step of its own.
use ashacky.Base.{
  if◌then◌else◌, is_some, Result, ℕ, Bool, true, false, not, ◌&&◌, ◌||◌, Option, none, some, List,
  [], ◌∷◌, ◌++◌,
}
use ashacky.Host.Status.{Key, is_false, Snapshot, host_revision}
use ashacky.Wifi.Events.{ValueEq, key_eq}
pub mod Live
mod Tests

pub data Timer : Type 0 where
  refresh retry reconcile expiry watch : Timer

pub record Timers : Type 0 where
  pub at_refresh : Option ℕ
  pub at_retry : Option ℕ
  pub at_reconcile : Option ℕ
  pub at_expiry : Option ℕ
  pub at_watch : Option ℕ

abbrev pub delay : Timer → Timers → Option ℕ
delay refresh t = t.at_refresh
delay retry t = t.at_retry
delay reconcile t = t.at_reconcile
delay expiry t = t.at_expiry
delay watch t = t.at_watch

abbrev pub set_timer : Timer → Option ℕ → Timers → Timers
set_timer refresh v t = record t { at_refresh = v }
set_timer retry v t = record t { at_retry = v }
set_timer reconcile v t = record t { at_reconcile = v }
set_timer expiry v t = record t { at_expiry = v }
set_timer watch v t = record t { at_watch = v }

abbrev pub no_timers : Timers
no_timers = record {
  at_refresh = none;
  at_retry = none;
  at_reconcile = none;
  at_expiry = none;
  at_watch = none;
}

-- `mode`, once it is set, tells whether there was a revision
pub record BluetoothEvents (F : Type 0) : Type 0 where
  pub key : Option (Key F)
  pub mode : Option Bool
  pub timers : Timers
  pub watcher : Bool
  pub closed : Bool

pub data Call : Type 0 where
  changed heartbeat : Call

-- `60000 if key else 2000`
abbrev pub reconcile_delay : Bool → ℕ
reconcile_delay keyed = if keyed then 60000 else 2000

abbrev pub mode_is : Bool → Option Bool → Bool
mode_is b none = false
mode_is true (some b) = b
mode_is false (some b) = not b

module _ {F : Type 0} where
  abbrev pub new_bluetooth : BluetoothEvents F
  new_bluetooth = record {
    key = none;
    mode = none;
    timers = no_timers;
    watcher = false;
    closed = false;
  }

  abbrev pub key_active : Option (Key F) → Bool
  key_active none = true
  key_active (some k) = not (is_false k.active)

  -- the property `active`
  abbrev pub active : BluetoothEvents F → Bool
  active e = key_active e.key

  abbrev pub remove_timer : Timer → BluetoothEvents F → BluetoothEvents F
  remove_timer name e = record e { timers = set_timer name none e.timers }

  abbrev pub later : Timer → ℕ → BluetoothEvents F → BluetoothEvents F
  later name milliseconds e =
      if e.closed || is_some (delay name e.timers)
      then e
      else record e { timers = set_timer name (some milliseconds) e.timers }

  abbrev pub notify : BluetoothEvents F → BluetoothEvents F
  notify e = later refresh 40 e

  unfoldable pub retry_later : BluetoothEvents F → BluetoothEvents F
  retry_later e = if active e then later retry 2000 e else e

  unfoldable pub reconcile_tick : BluetoothEvents F → BluetoothEvents F
  reconcile_tick e =
      let e' = if active e then notify e else e in
      later reconcile (reconcile_delay (is_some e.key)) e'

  -- `if mode != self.mode`
  unfoldable pub enter_mode : Bool → BluetoothEvents F → BluetoothEvents F
  enter_mode keyed e =
      if mode_is keyed e.mode
      then e
      else notify (
          later reconcile (reconcile_delay keyed)
            (remove_timer reconcile (record e { mode = some keyed })))

  module _ (q : ValueEq F) where
    -- `if key != self.key`
    unfoldable pub enter_key : Option (Key F) → BluetoothEvents F → BluetoothEvents F
    enter_key key e = if key_eq q key e.key then e else notify (record e { key = key })

    unfoldable pub read_revision :
        Option (Key F) × ℕ → BluetoothEvents F → BluetoothEvents F × List Call
    read_revision (key, remaining) e =
        let e' = enter_key key (enter_mode (is_some key) (remove_timer expiry e)) in
        (
          if is_some key then later expiry remaining e' else e',
          if is_some key then heartbeat ∷ [] else [],
        )

    unfoldable pub read_host :
        Result (Snapshot F) → ℕ → BluetoothEvents F → BluetoothEvents F × List Call
    read_host snapshot now e = read_revision (host_revision "bluetoothRevision" snapshot now) e

    -- `monitored` tells whether the directory could be watched
    unfoldable pub watch_status :
        Bool → Result (Snapshot F) → ℕ → BluetoothEvents F → BluetoothEvents F × List Call
    watch_status monitored snapshot now e =
        let e' = record e { watcher = monitored } in
        read_host snapshot now (if monitored then e' else later watch 1000 e')

    -- whether the directory, or the file, is among the changed paths
    unfoldable pub status_changed :
        Bool → Bool → Result (Snapshot F) → ℕ → BluetoothEvents F → BluetoothEvents F × List Call
    status_changed directory file snapshot now e =
        let e' = if directory then later watch 1000 e else e in
        if file || directory then read_host snapshot now e' else (e', [])

    unfoldable pub close : BluetoothEvents F → BluetoothEvents F
    close e = record e { timers = no_timers; closed = true; watcher = false }

    pub data Event : Type 0 where
      changed_status : Bool → Bool → Result (Snapshot F) → ℕ → Event
      fired : Timer → Bool → Result (Snapshot F) → ℕ → Event
      notified retried stopped : Event

    -- `invoke`, of an armed timer, with the callback that it was armed with
    unfoldable pub invoke :
        Timer → Bool → Result (Snapshot F) → ℕ → BluetoothEvents F → BluetoothEvents F × List Call
    invoke refresh monitored snapshot now e = (e, changed ∷ [])
    invoke retry monitored snapshot now e = (notify e, [])
    invoke reconcile monitored snapshot now e = (reconcile_tick e, [])
    invoke expiry monitored snapshot now e = read_host snapshot now e
    invoke watch monitored snapshot now e = watch_status monitored snapshot now e

    unfoldable pub fire :
        Timer → Bool → Result (Snapshot F) → ℕ → BluetoothEvents F → BluetoothEvents F × List Call
    fire name monitored snapshot now e =
        if is_some (delay name e.timers) && not e.closed
        then invoke name monitored snapshot now (remove_timer name e)
        else (e, [])

    unfoldable pub handle : Event → BluetoothEvents F → BluetoothEvents F × List Call
    handle (changed_status directory file snapshot now) e =
        status_changed directory file snapshot now e
    handle (fired name monitored snapshot now) e = fire name monitored snapshot now e
    handle notified e = (notify e, [])
    handle retried e = (retry_later e, [])
    handle stopped e = (close e, [])

    unfoldable pub run : List Event → BluetoothEvents F → BluetoothEvents F × List Call
    run [] e = (e, [])
    run (x ∷ xs) e =
        let (e', calls) = handle x e in let (e'', more) = run xs e' in (e'', calls ++ more)
