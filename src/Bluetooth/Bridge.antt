-- ===== src/Bluetooth/Bridge.antt =====
-- The BlueZ bridge (guest/devices/bluetooth_bluez.py, `Bridge`): its state, the objects that it exports
-- (`register`, `write_radio`, `update`), and in Bluetooth/Bridge/Calls what it is called with. Each
-- exported object has one interface, which its path determines, so that a registration has a path.
use Prim.Native.String.{count}
use text.Mathlib.Text.{◌==◌ as str_eq}
use ashacky.Base.{
  ◌==◌, if◌then◌else◌, Bytes, Result, ◌>>=◌, ◌>>◌, type_error, err, ok, ℕ, String, Bool, true,
  false, not, Option, none, some, List, [], ◌∷◌, ◌++◌,
}
use ashacky.Base.Int.{pos}
use ashacky.Base.Json.{Json, Items, Fields, get, item, bool, int, str, arr, obj, nil, cons, end}
use ashacky.Base.Assoc.{lookup, has, put, erase}
use ashacky.Host.Status.{Key}
use ashacky.Bluetooth.Events.{BluetoothEvents, later}
use ashacky.Bluetooth.Bridge.Devices.{
  ObjectPath, paths, BusLibrary, Props, variants, device_props, bluez_path, adapter_path,
}
pub mod Devices
pub mod Exported
pub mod Calls
mod Tests

-- `discovery` is a set of names, `registrations` has the ids that the bus returned, `discovery_timer` is
-- the timer of that name, which `BluetoothEvents` keeps beside its own.
pub record BluezBridge (F V : Type 0) : Type 0 where
  pub objects : List (ObjectPath × Props V)
  pub registrations : List (ObjectPath × ℕ)
  pub agents : List (Bytes × Bytes)
  pub default_agent : Option (Bytes × Bytes)
  pub discovery : List (Bytes × Unit {0})
  pub pending : Bool
  pub refreshing : Bool
  pub refresh_again : Bool
  pub bridge_closed : Bool
  pub radio_state : ℕ
  pub radio_key : Option (Key F)
  pub events : BluetoothEvents F
  pub discovery_timer : Bool

-- What the bridge tells the kernel's radio and the bus.
pub data BusCall (V : Type 0) : Type 0 where
  radio_fed : ℕ → BusCall V
  interfaces_removed : ObjectPath → BusCall V
  interfaces_added : ObjectPath → Props V → BusCall V
  properties_changed : ObjectPath → Props V → BusCall V

-- `props.get(key)`
abbrev pub prop_of : {V : Type 0} → String → Props V → Option V
prop_of k [] = none
prop_of k ((j, v) ∷ ps) = let rest = prop_of k ps in if str_eq j k then some v else rest

abbrev pub is_empty_set : List (Bytes × Unit {0}) → Bool
is_empty_set [] = true
is_empty_set (_ ∷ _) = false

-- `radio_state` as bits
abbrev pub radio_bits : Bool → Bool → ℕ
radio_bits unavailable powered = if unavailable then 0 else if powered then 3 else 1

-- Exported objects and registrations.
abbrev pub Export : Type 0 → Type 0
Export V = List (ObjectPath × Props V) × List (ObjectPath × ℕ)

module _ {V : Type 0} where
  -- The loop over the paths that are gone: the signal, and the end of the registration.
  unfoldable pub remove_gone :
      List (ObjectPath × Props V)
      → List (ObjectPath × Props V)
      → Export V
      → Export V × List (BusCall V)
  remove_gone current [] export = (export, [])
  remove_gone current ((p, props) ∷ before) (objects, registrations) =
      let stays = has paths p current in
      let (left, calls) = remove_gone current before (
        if stays
        then (objects, registrations)
        else (erase paths p objects, erase paths p registrations)) in
      (left, if stays then calls else interfaces_removed p ∷ calls)

  -- `{k: v for k, v in props.items() if self.objects[path][iface].get(k) != v}`
  unfoldable pub changed_props : (V → V → Bool) → Props V → Props V → Props V
  changed_props same old [] = []
  changed_props same old ((k, v) ∷ props) =
      let rest = changed_props same old props in
      elim (prop_of k old) [
        | none ↦ (k, v) ∷ rest
        | some w ↦ if same w v then rest else (k, v) ∷ rest
      ]

  unfoldable pub announce_change : ObjectPath → Props V → List (BusCall V)
  announce_change p [] = []
  announce_change p (c ∷ cs) = properties_changed p (c ∷ cs) ∷ []

  -- One round of the loop over the current objects; `ids` is what the bus returns for a registration.
  unfoldable pub put_object :
      (V → V → Bool)
      → (ObjectPath → ℕ)
      → ObjectPath
      → Props V
      → Option (Props V)
      → Export V
      → Export V × List (BusCall V)
  put_object same ids p props none (objects, registrations) = (
    (put paths p props objects, put paths p (ids p) registrations),
    interfaces_added p props ∷ [],
  )
  put_object same ids p props (some old) (objects, registrations) =
      ((put paths p props objects, registrations), announce_change p (changed_props same old props))

  unfoldable pub put_objects :
      (V → V → Bool)
      → (ObjectPath → ℕ)
      → List (ObjectPath × Props V)
      → Export V
      → Export V × List (BusCall V)
  put_objects same ids [] export = (export, [])
  put_objects same ids ((p, props) ∷ current) export =
      let (export', calls) = put_object same ids p props (lookup paths p export.0) export in
      let (export'', later) = put_objects same ids current export' in (export'', calls ++ later)

  -- both loops of `update`
  unfoldable pub export_current :
      (V → V → Bool)
      → (ObjectPath → ℕ)
      → List (ObjectPath × Props V)
      → Export V
      → Export V × List (BusCall V)
  export_current same ids current export =
      let (left, gone) = remove_gone current export.0 export in
      let (all_current, calls) = put_objects same ids current left in (all_current, gone ++ calls)

module _ {F V : Type 0} (lib : BusLibrary F V) (text_value : Bytes → Json F) where
  -- the synthetic identity of the adapter
  unfoldable pub adapter_values : Json F → Bool → List (String × Json F)
  adapter_values powered discovering =
      ("Address", str "02:4C:48:42:54:01")
      ∷ ("AddressType", str "public")
      ∷ ("Name", str "Mac Bluetooth")
      ∷ ("Alias", str "Mac Bluetooth")
      ∷ ("Class", int (pos 0))
      ∷ ("Powered", powered)
      ∷ ("Discoverable", bool false)
      ∷ ("Pairable", powered)
      ∷ ("Discovering", bool discovering)
      ∷ ("UUIDs", arr nil)
      ∷ []

  -- The loop over the devices: a later one at the same address takes the place of an earlier one.
  unfoldable pub add_devices :
      Items F → List (ObjectPath × Props V) → Result (List (ObjectPath × Props V))
  add_devices nil current = ok current
  add_devices (cons (obj device) rest) current =
      device_props lib text_value device >>= λ (p, props).
      add_devices rest (put paths p props current)
  add_devices (cons _ rest) current = err type_error

  -- what iterating over `state['devices']` gives
  unfoldable pub device_items : Json F → Result (Items F)
  device_items (arr es) = ok es
  device_items (obj end) = ok nil
  device_items (str s) = if count s == 0 then ok nil else err type_error
  device_items _ = err type_error

  unfoldable pub current_objects : Fields F → Bool → Result (List (ObjectPath × Props V))
  current_objects state discovering = do
    powered ← item "powered" state
    adapter ← variants lib (adapter_values powered discovering)
    listed ← item "devices" state
    devices ← device_items listed
    add_devices devices ((bluez_path, []) ∷ (adapter_path, adapter) ∷ [])

  unfoldable pub radio_of : Fields F → Result ℕ
  radio_of state =
      if lib.truthy (get "unavailable" state)
      then ok 0
      else item "powered" state >>= λ powered. ok (radio_bits false (lib.truthy (some powered)))

  -- `feeds` is `self.manage_radio and os.geteuid() == 0`; an OSError of the call is dropped
  unfoldable pub write_radio : Bool → BluezBridge F V → List (BusCall V)
  write_radio feeds b = if feeds then radio_fed b.radio_state ∷ [] else []

  unfoldable pub export_state :
      (ObjectPath → ℕ)
      → BluezBridge F V
      → Result (List (ObjectPath × Props V))
      → BluezBridge F V × List (BusCall V) × Result (Unit {0})
  export_state ids b (err e) = (b, [], err e)
  export_state ids b (ok current) =
      let (export, calls) =
        export_current lib.same_value ids current (b.objects, b.registrations) in
      (record b { objects = export.0; registrations = export.1 }, calls, ok tt)

  unfoldable pub update_radio :
      Bool
      → (ObjectPath → ℕ)
      → Fields F
      → BluezBridge F V
      → Result ℕ
      → BluezBridge F V × List (BusCall V) × Result (Unit {0})
  update_radio feeds ids state b (err e) = (b, [], err e)
  update_radio feeds ids state b (ok bits) =
      let fed : BluezBridge F V = record b { radio_state = bits; radio_key = b.events.key } in
      let (b', calls, result) =
        export_state ids fed (current_objects state (not (is_empty_set b.discovery))) in
      (b', write_radio feeds fed ++ calls, result)

  unfoldable pub update :
      Bool
      → (ObjectPath → ℕ)
      → Fields F
      → BluezBridge F V
      → BluezBridge F V × List (BusCall V) × Result (Unit {0})
  update feeds ids state b = update_radio feeds ids state b (radio_of state)
