-- ===== src/Bluetooth/Bridge/Calls/Registered.antt =====
-- What stays registered, whatever the bridge is called with and in whatever order
-- (guest/devices/bluetooth_bluez.py, `Bridge`).
use ashacky.Base.{Bytes, ok, ℕ, ◌≡◌, Bool, not, List}
use ashacky.Base.Json.{Json, Fields}
use ashacky.Base.Assoc.{lookup}
use ashacky.Bluetooth.Bridge.Devices.{ObjectPath, paths, BusLibrary, Props}
use ashacky.Bluetooth.Bridge.Exported.{export_current-lookup, current_objects-IsCurrent}
use ashacky.Bluetooth.Bridge.{
  BluezBridge, is_empty_set, current_objects, radio_of, export_state, update_radio, update,
}
use ashacky.Bluetooth.Bridge.Calls.Service.{Service}

module _ {F V : Type 0} (q : ObjectPath) (lib : BusLibrary F V) (text_value : Bytes → Json F)
    (feeds : Bool) (ids : ObjectPath → ℕ) where
  -- After an update that did not fail, a path is exported exactly with the properties that the host's state
  -- gives it, and no other path is, whatever was exported before.
  pub update-current :
      (state : Fields F) (b : BluezBridge F V) (current : List (ObjectPath × Props V)) (bits : ℕ)
      → radio_of lib text_value state ≡ ok bits
      → current_objects lib text_value state (not (is_empty_set b.discovery)) ≡ ok current
      → lookup paths q (update lib text_value feeds ids state b).0.objects ≡ lookup paths q current
  unfolding update update_radio export_state
  update-current state b current bits r c =
      rw (r, c)
        (export_current-lookup lib.same_value ids q current (b.objects, b.registrations)
          (current_objects-IsCurrent lib text_value state (not (is_empty_set b.discovery)) current
            c).0)
