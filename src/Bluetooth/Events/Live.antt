-- ===== src/Bluetooth/Events/Live.antt =====
-- The service never falls silent (guest/devices/bluetooth_events.py, `class BluetoothEvents`).
use ashacky.Base.{is_some, ℕ, ◌≡◌, Bool, true, false, Option, none, some, arith}
use ashacky.Bluetooth.Events.{no_timers, BluetoothEvents, reconcile_delay}

-- The reconciliation is armed with the delay of the mode.
abbrev pub Matches : Option Bool → Option ℕ → Type 0
Matches none t = Unit
Matches (some m) t = t ≡ some (reconcile_delay m)

module _ {F : Type 0} where
  -- An open service, before its status is read.
  abbrev pub IsOpen : BluetoothEvents F → Type 0
  IsOpen e = (e.closed ≡ false) × Matches e.mode e.timers.at_reconcile

  -- An open service, once it was: the reconciliation is armed, every minute with a revision of the host
  -- and every two seconds without, and the expiry exactly with a revision.
  abbrev pub IsLive : BluetoothEvents F → Type 0
  IsLive e =
      (e.closed ≡ false)
      × (e.mode ≡ some (is_some e.key))
      × (e.timers.at_reconcile ≡ some (reconcile_delay (is_some e.key)))
      × (is_some e.timers.at_expiry ≡ is_some e.key)

  abbrev pub IsClosed : BluetoothEvents F → Type 0
  IsClosed e = (e.closed ≡ true) × (e.timers ≡ no_timers)

  IsLive-IsOpen : (e : BluetoothEvents F) → IsLive e → IsOpen e
  IsLive-IsOpen e l = ground arith
