-- ===== src/Bluetooth/Events/Tests.antt =====
-- A run of the Bluetooth events (guest/devices/bluetooth_events.py): a revision arrives and expires, and
-- the service is closed.
use ashacky.Base.{os_error, err, ok, ◌≡◌, refl, true, false, none, some, List, [], ◌∷◌}
use ashacky.Base.Json.{bool, str, end, field}
use ashacky.Host.Status.{Snapshot, host_revision}
use ashacky.Bluetooth.Events.{
  BluetoothEvents, new_bluetooth, reconcile_tick, enter_mode, enter_key, read_revision, read_host,
  watch_status, status_changed, Event, invoke, fire, handle, run, refresh, reconcile, expiry,
  changed, heartbeat, changed_status, fired,
}
use ashacky.Wifi.Events.{ValueEq}

abbrev plain_values : ValueEq ⊥
plain_values = record { same = λ _ _. true; same_self = λ _. refl }

abbrev confirmed : Snapshot ⊥
confirmed = record {
  mtime = 7000;
  value =
      field "ok" (bool true)
        (field "statusTransport" (str "virtio-serial") (field "bluetoothRevision" (str "r1") end));
}

abbrev story : List (Event plain_values)
story =
    changed_status false true (ok confirmed) 8000
    ∷ fired refresh true (ok confirmed) 8000
    ∷ fired expiry true (ok confirmed) 40000
    ∷ fired reconcile true (ok confirmed) 42000
    ∷ []

abbrev first_watch : BluetoothEvents ⊥
first_watch = (watch_status plain_values true (err os_error) 0 new_bluetooth).0

story-live :
    let (e, calls) = run plain_values story first_watch in
    (calls ≡ heartbeat ∷ changed ∷ [])
    × (e.timers.at_reconcile ≡ some 2000)
    × (e.timers.at_expiry ≡ none)
    × (e.timers.at_refresh ≡ some 40)
unfolding run handle status_changed read_host read_revision host_revision fire enter_key enter_mode
    watch_status invoke reconcile_tick
story-live = (refl, refl, refl, refl)
