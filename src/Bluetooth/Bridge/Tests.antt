-- ===== src/Bluetooth/Bridge/Tests.antt =====
-- A headset, an agent and an operation (guest/devices/bluetooth_bluez.py).
use ashacky.Base.{◌==◌, if◌then◌else◌, Bytes, ok, ℕ, ◌≡◌, refl, true, false, some, List, [], ◌∷◌}
use ashacky.Base.Int.{pos}
use ashacky.Base.Json.{Json, Fields, item, bool, int, str, arr, obj, nil, cons, end, field}
use ashacky.Host.Status.{is_true}
use ashacky.Base.Assoc.{lookup}
use ashacky.Wifi.Events.{ValueEq}
use ashacky.Bluetooth.Operation.{pair_device}
use ashacky.Bluetooth.Bridge.Devices.{
  ObjectPath, paths, BusLibrary, Props, variant, variants, bluez_path, adapter_path, device_path,
}
use ashacky.Bluetooth.Bridge.{
  adapter_values, add_devices, device_items, current_objects, radio_of, update,
}
use ashacky.Bluetooth.Bridge.Calls.{
  register_agent, request_default_agent, start_discovery, operate_device,
}
use ashacky.Bluetooth.Bridge.Calls.Service.{
  new_bluez, Service, BridgeEvent, serve_all, new_service, method_called, operation_done, read_done,
}
use ashacky.Bluetooth.Bridge.Calls.Runs.{IsBalanced, serve_all-IsBalanced}
use ashacky.Bluetooth.Bridge.Calls.Registered.{update-current}

-- A variant is its number, here always 0.
abbrev bus : BusLibrary ⊥ ℕ
bus = record {
  boolean = λ b. if b then 1 else 0;
  path_value = λ p. 7;
  value_of = λ t v. ok 5;
  same_value = λ v w. v == w;
  truthy = λ v. is_true v;
  address = λ v. ok (65 ∷ []);
  is_uuid = λ v. true;
}

abbrev text_of_address : Bytes → Json ⊥
text_of_address a = str "AA"

abbrev same_json : ValueEq ⊥
same_json = record { same = λ v w. true; same_self = λ v. refl }

abbrev id_of : ObjectPath → ℕ
id_of p = 3

abbrev headset : Fields ⊥
headset = field "address" (str "a") (
    field "classOfDevice" (int (pos 1028))
      (field "name" (str "h") (field "paired" (bool true) (field "connected" (bool false) end))))

abbrev host_state : Fields ⊥
host_state = field "powered" (bool true) (field "devices" (arr (cons (obj headset) nil)) end)

abbrev user : Bytes
user = 58 ∷ 49 ∷ []

abbrev agent_path : Bytes
agent_path = 47 ∷ 97 ∷ []

-- the user's agent, discovery, its read, and a pairing that ends
abbrev events : List (BridgeEvent same_json)
events =
    method_called true user (register_agent agent_path "DisplayYesNo")
    ∷ method_called true user (request_default_agent agent_path)
    ∷ method_called true user start_discovery
    ∷ read_done (ok host_state)
    ∷ method_called true user (operate_device (device_path (65 ∷ [])) pair_device)
    ∷ operation_done (ok tt)
    ∷ []

abbrev start : Service ⊥ ℕ
start = new_service same_json bus text_of_address true id_of

serve_all-IsBalanced_example :
    IsBalanced (serve_all same_json bus text_of_address true id_of events start)
serve_all-IsBalanced_example = serve_all-IsBalanced same_json bus text_of_address true id_of events

abbrev adapter_entry : Props ℕ
adapter_entry =
    ("Address", 5)
    ∷ ("AddressType", 5)
    ∷ ("Name", 5)
    ∷ ("Alias", 5)
    ∷ ("Class", 5)
    ∷ ("Powered", 1)
    ∷ ("Discoverable", 0)
    ∷ ("Pairable", 1)
    ∷ ("Discovering", 0)
    ∷ ("UUIDs", 5)
    ∷ []

abbrev off_state : Fields ⊥
off_state = field "powered" (bool true) (field "devices" (arr nil) end)

update-current_example :
    lookup paths adapter_path
      (update bus text_of_address true id_of off_state (new_bluez id_of)).0.objects
    ≡ some adapter_entry
unfolding radio_of item current_objects variants adapter_values variant device_items add_devices
    new_bluez
update-current_example =
    update-current adapter_path bus text_of_address true id_of off_state (new_bluez id_of)
      ((bluez_path, []) ∷ (adapter_path, adapter_entry) ∷ []) 3 refl refl
