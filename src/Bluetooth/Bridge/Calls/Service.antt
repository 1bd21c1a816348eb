-- ===== src/Bluetooth/Bridge/Calls/Service.antt =====
-- The bridge at work (guest/devices/bluetooth_bluez.py, `Bridge`): calls of the bus, ends of the pool's work, and
-- the events of its `BluetoothEvents`, in any order.
use ashacky.Base.{
  if◌then◌else◌, Bytes, Result, ℕ, zero, suc, ◌+◌, Bool, true, false, none, List, [], ◌∷◌, ◌++◌,
}
use ashacky.Base.Json.{Json, Fields}
use ashacky.Wifi.Events.{later, ValueEq}
use ashacky.Bluetooth.Events.{Call, new_bluetooth, Event, handle, changed, heartbeat}
use ashacky.Bluetooth.Bridge.Devices.{ObjectPath, BusLibrary, manager_path, bluez_path}
use ashacky.Bluetooth.Bridge.{BluezBridge}
use ashacky.Bluetooth.Bridge.Calls.{
  Act, Method, operation_finished, owner_lost, refresh_devices, read_finished, call_method, beat,
  close_bridge,
}
use ashacky.Bluetooth.Bridge.Calls.Pool.{operations_of, reads_of}

-- the bridge, after its constructor has registered the manager and the agents
unfoldable pub new_bluez : {F V : Type 0} → (ObjectPath → ℕ) → BluezBridge F V
new_bluez ids = record {
  objects = (bluez_path, []) ∷ [];
  registrations = (manager_path, ids manager_path) ∷ (bluez_path, ids bluez_path) ∷ [];
  agents = [];
  default_agent = none;
  discovery = [];
  pending = false;
  refreshing = false;
  refresh_again = false;
  bridge_closed = false;
  radio_state = 0;
  radio_key = none;
  events = new_bluetooth;
  discovery_timer = false;
}

-- The bridge, and the operations and reads that the pool has not ended.
pub record Service (F V : Type 0) : Type 0 where
  pub bridge : BluezBridge F V
  pub operations : ℕ
  pub reads : ℕ

pub data BridgeEvent {F : Type 0} (q : ValueEq F) : Type 0 where
  name_lost : Bytes → BridgeEvent q
  method_called : Bool → Bytes → Method F → BridgeEvent q
  operation_done : Result (Unit {0}) → BridgeEvent q
  read_done : Result (Fields F) → BridgeEvent q
  discovery_due : BridgeEvent q
  events_moved : Event q → BridgeEvent q
  bridge_stopped : BridgeEvent q

module _ {F V : Type 0} where
  abbrev pub account : ℕ → ℕ → BluezBridge F V × List (Act V) → Service F V × List (Act V)
  account operations reads (b, acts) = (
    record {
      bridge = b;
      operations = operations_of acts + operations;
      reads = reads_of acts + reads;
    },
    acts,
  )

module _ {F V : Type 0} (q : ValueEq F) (lib : BusLibrary F V) (text_value : Bytes → Json F)
    (feeds : Bool) (ids : ObjectPath → ℕ) where
  -- the callbacks of the events
  unfoldable pub call_back : List Call → BluezBridge F V → BluezBridge F V × List (Act V)
  call_back [] b = (b, [])
  call_back (changed ∷ calls) b =
      let (b', acts) = refresh_devices lib text_value feeds ids false b in
      let (b'', later) = call_back calls b' in (b'', acts ++ later)
  call_back (heartbeat ∷ calls) b =
      let (b', later) = call_back calls b in (b', beat lib text_value feeds ids q b ++ later)

  unfoldable pub move_events : Event q → BluezBridge F V → BluezBridge F V × List (Act V)
  move_events x b =
      let (e, calls) = handle q x b.events in call_back calls (record b { events = e })

  -- the timer of the discovery, if it is armed
  unfoldable pub discover : BluezBridge F V → BluezBridge F V × List (Act V)
  discover b =
      if b.discovery_timer
      then refresh_devices lib text_value feeds ids true (record b { discovery_timer = false })
      else (b, [])

  abbrev pub end_operation :
      Result (Unit {0}) → BluezBridge F V → ℕ → ℕ → Service F V × List (Act V)
  end_operation result b zero reads = account zero reads (b, [])
  end_operation result b (suc operations) reads =
      account operations reads (operation_finished result b)

  abbrev pub end_read : Result (Fields F) → BluezBridge F V → ℕ → ℕ → Service F V × List (Act V)
  end_read result b operations zero = account operations zero (b, [])
  end_read result b operations (suc reads) =
      account operations reads (read_finished lib text_value feeds ids result b)

  unfoldable pub serve : BridgeEvent q → Service F V → Service F V × List (Act V)
  serve (name_lost name) s =
      account s.operations s.reads (owner_lost lib text_value feeds ids name s.bridge)
  serve (method_called authorized sender m) s =
      account s.operations s.reads
        (call_method lib text_value feeds ids authorized sender m s.bridge)
  serve (operation_done result) s = end_operation result s.bridge s.operations s.reads
  serve (read_done result) s = end_read result s.bridge s.operations s.reads
  serve discovery_due s = account s.operations s.reads (discover s.bridge)
  serve (events_moved x) s = account s.operations s.reads (move_events x s.bridge)
  serve bridge_stopped s =
      account s.operations s.reads (close_bridge lib text_value feeds ids q s.bridge, [])

  unfoldable pub serve_all : List (BridgeEvent q) → Service F V → Service F V
  serve_all [] s = s
  serve_all (x ∷ xs) s = serve_all xs (serve x s).0

  abbrev pub new_service : Service F V
  new_service = record { bridge = new_bluez ids; operations = 0; reads = 0 }
