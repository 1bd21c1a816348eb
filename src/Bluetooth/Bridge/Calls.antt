-- ===== src/Bluetooth/Bridge/Calls.antt =====
-- What the bridge is called with (guest/devices/bluetooth_bluez.py, `owner_changed`, `method`, `submit`,
-- `refresh`, `schedule_discovery`, `discovery_changed`, `heartbeat` and `close`).
use Prim.Native.String.{count}
use text.Mathlib.Text.{◌==◌ as str_eq}
use ashacky.Base.{
  ◌==◌, if◌then◌else◌, is_some, Bytes, bytes_eq, Result, err, ok, ℕ, String, Bool, true, false, not,
  ◌&&◌, ◌||◌, Option, none, some, List, [], ◌∷◌, ◌++◌,
}
use ashacky.Base.Json.{Json, Fields, get, bool, str, arr, nil, end, field}
use ashacky.Base.Assoc.{lookup, has, put, erase}
use ashacky.Host.Status.{Key}
use ashacky.Bluetooth.Operation.{Action}
use ashacky.Bluetooth.Events.{active, notify, retry_later, close}
use ashacky.Wifi.Events.{ValueEq, key_eq, events}
use ashacky.Bluetooth.Bridge.Devices.{ObjectPath, paths, names, BusLibrary, Props, adapter_path}
use ashacky.Bluetooth.Bridge.{
  BluezBridge, BusCall, prop_of, is_empty_set, write_radio, update, properties_changed,
}
pub mod Agents
pub mod Pool
pub mod Service
pub mod Runs
pub mod Registered

-- the work of the thread pool: a read of the devices, after a scan or not, or an operation on a device with
-- the agent that confirms it, its owner and path
pub data Work : Type 0 where
  read_devices : Bool → Work
  operate : ObjectPath → Action → Option (Bytes × Bytes) → Work

-- What a call does, in order: replies, work for the pool, and calls to the bus and the radio.
pub data Act (V : Type 0) : Type 0 where
  returned : Act V
  refused : String → Act V
  submitted : Work → Act V
  told : BusCall V → Act V

-- The methods, with their arguments; `set_filter` has the dict of filters.
pub data Method (F : Type 0) : Type 0 where
  register_agent : Bytes → String → Method F
  unregister_agent request_default_agent : Bytes → Method F
  managed_objects get_filters start_discovery stop_discovery unsupported : Method F
  set_filter : Fields F → Method F
  operate_device : ObjectPath → Action → Method F

abbrev pub told_all : {V : Type 0} → List (BusCall V) → List (Act V)
told_all [] = []
told_all (c ∷ cs) = told c ∷ told_all cs

-- `values[1] not in ('', 'DisplayOnly', ...)`
unfoldable pub is_capability : String → Bool
is_capability c =
    count c == 0
    || str_eq c "DisplayOnly"
    || str_eq c "DisplayYesNo"
    || str_eq c "KeyboardOnly"
    || str_eq c "NoInputNoOutput"
    || str_eq c "KeyboardDisplay"

abbrev pub only_transport : {F : Type 0} → Fields F → Bool
only_transport end = true
only_transport (field k v fs) = str_eq k "Transport" && only_transport fs

abbrev pub is_classic : {F : Type 0} → Option (Json F) → Bool
is_classic none = true
is_classic (some (str s)) = str_eq s "auto" || str_eq s "bredr"
is_classic (some _) = false

-- `props[key] = value` and whether a dict of properties is empty
abbrev pub set_prop : {V : Type 0} → String → V → Props V → Props V
set_prop k v [] = (k, v) ∷ []
set_prop k v ((j, w) ∷ ps) =
    let rest = set_prop k v ps in if str_eq j k then (j, v) ∷ ps else (j, w) ∷ rest

abbrev pub is_empty_props : {V : Type 0} → Props V → Bool
is_empty_props [] = true
is_empty_props (_ ∷ _) = false

abbrev pub is_value : {V : Type 0} → (V → V → Bool) → V → Option V → Bool
is_value same v none = false
is_value same v (some w) = same w v

-- equality of an agent with a pair
abbrev pub agent_is : Bytes → Bytes → Option (Bytes × Bytes) → Bool
agent_is sender path none = false
agent_is sender path (some (s, p)) = bytes_eq s sender && bytes_eq p path

abbrev pub owner_is : Bytes → Option (Bytes × Bytes) → Bool
owner_is name none = false
owner_is name (some (s, p)) = bytes_eq s name

abbrev pub registered_as : Bytes → Option Bytes → Bool
registered_as path none = false
registered_as path (some p) = bytes_eq p path

-- `bluetooth-devices` with nothing, for a host that is not there
abbrev pub unavailable_state : {F : Type 0} → Fields F
unavailable_state =
    field "devices" (arr nil) (field "powered" (bool false) (field "unavailable" (bool true) end))

module _ {F V : Type 0} where
  -- the methods of the agent manager
  unfoldable pub register_call :
      Bytes → Bytes → String → BluezBridge F V → BluezBridge F V × List (Act V)
  register_call sender path capability b =
      if not (is_capability capability)
      then (b, refused "InvalidArguments" ∷ [])
      else if has names sender b.agents
      then (b, refused "AlreadyExists" ∷ [])
      else (record b { agents = put names sender path b.agents }, returned ∷ [])

  unfoldable pub unregister_call : Bytes → Bytes → BluezBridge F V → BluezBridge F V × List (Act V)
  unregister_call sender path b =
      if not (registered_as path (lookup names sender b.agents))
      then (b, refused "DoesNotExist" ∷ [])
      else (
        record b {
          agents = erase names sender b.agents;
          default_agent = if agent_is sender path b.default_agent then none else b.default_agent;
        },
        returned ∷ [],
      )

  unfoldable pub default_call : Bytes → Bytes → BluezBridge F V → BluezBridge F V × List (Act V)
  default_call sender path b =
      if not (registered_as path (lookup names sender b.agents))
      then (b, refused "DoesNotExist" ∷ [])
      else (record b { default_agent = some (sender, path) }, returned ∷ [])

  abbrev pub agent_for : Bytes → BluezBridge F V → Option (Bytes × Bytes)
  agent_for sender b = elim (lookup names sender b.agents) [
    | none ↦ b.default_agent
    | some path ↦ some (sender, path)
  ]

  -- `Connect`, `Disconnect` and `Pair`
  unfoldable pub operate_call :
      Bytes → ObjectPath → Action → BluezBridge F V → BluezBridge F V × List (Act V)
  operate_call sender path action b =
      if b.pending
      then (b, refused "InProgress" ∷ [])
      else (record b { pending = true }, submitted (operate path action (agent_for sender b)) ∷ [])

  unfoldable pub schedule_discovery : BluezBridge F V → BluezBridge F V
  schedule_discovery b =
      if not (is_empty_set b.discovery)
        && not b.bridge_closed
        && active b.events
        && not b.events.closed
      then record b { discovery_timer = true }
      else b

  -- The end of `finished`, for either kind of work.
  unfoldable pub after_work : BluezBridge F V → BluezBridge F V
  after_work b =
      schedule_discovery (
        if b.refresh_again then record b { refresh_again = false; events = notify b.events } else b)

  -- `finished` of an operation
  unfoldable pub operation_finished :
      Result (Unit {0}) → BluezBridge F V → BluezBridge F V × List (Act V)
  operation_finished result b =
      let freed : BluezBridge F V = record b { pending = false } in
      if b.bridge_closed then (freed, []) else elim result [
        | ok u ↦ (after_work (record freed { refresh_again = true }), returned ∷ [])
        | err e ↦ (after_work freed, refused "Failed" ∷ [])
      ]

module _ {F V : Type 0} (lib : BusLibrary F V) (text_value : Bytes → Json F) (feeds : Bool)
    (ids : ObjectPath → ℕ) where
  abbrev pub settle_discovering :
      Bool → Option (Props V) → BluezBridge F V → BluezBridge F V × List (BusCall V)
  settle_discovering now none b = (b, [])
  settle_discovering now (some props) b =
      let value = lib.boolean now in
      let same = is_value lib.same_value value (prop_of "Discovering" props) in
      if is_empty_props props || same then (b, []) else (
        record b {
          objects = put paths adapter_path (set_prop "Discovering" value props) b.objects;
        },
        properties_changed adapter_path (("Discovering", value) ∷ []) ∷ [],
      )

  unfoldable pub discovery_changed : BluezBridge F V → BluezBridge F V × List (BusCall V)
  discovery_changed b =
      let now = not (is_empty_set b.discovery) in
      settle_discovering now (lookup paths adapter_path b.objects)
        (if now then b else record b { discovery_timer = false })

  -- `owner_changed`, of a name that has lost its owner
  unfoldable pub owner_lost : Bytes → BluezBridge F V → BluezBridge F V × List (Act V)
  owner_lost name b =
      let (b', calls) = discovery_changed (record b { discovery = erase names name b.discovery }) in
      (
        record b' {
          agents = erase names name b'.agents;
          default_agent = if owner_is name b'.default_agent then none else b'.default_agent;
        },
        told_all calls,
      )

  unfoldable pub refresh_devices : Bool → BluezBridge F V → BluezBridge F V × List (Act V)
  refresh_devices scan b =
      if b.bridge_closed
      then (b, [])
      else if b.refreshing
      then (record b { refresh_again = true }, [])
      else if not (active b.events)
      then (let (b', calls, result) = update lib text_value feeds ids unavailable_state b in
          (b', told_all calls))
      else (
        record b { refreshing = true },
        submitted (read_devices (scan && not (is_empty_set b.discovery) && not b.pending)) ∷ [],
      )

  -- an update that failed, or a read that did
  unfoldable pub read_failed : BluezBridge F V → BluezBridge F V × List (Act V)
  read_failed b =
      let (b', calls, result) = update lib text_value feeds ids unavailable_state b in
      (record b' { events = retry_later b'.events }, told_all calls)

  abbrev pub settle_read :
      BluezBridge F V × List (BusCall V) × Result (Unit {0}) → BluezBridge F V × List (Act V)
  settle_read (b, calls, ok u) = (b, told_all calls)
  settle_read (b, calls, err e) = let (b', acts) = read_failed b in (b', told_all calls ++ acts)

  unfoldable pub take_read : Result (Fields F) → BluezBridge F V → BluezBridge F V × List (Act V)
  take_read (err e) b = read_failed b
  take_read (ok state) b = settle_read (update lib text_value feeds ids state b)

  -- `finished` of a read
  unfoldable pub read_finished :
      Result (Fields F) → BluezBridge F V → BluezBridge F V × List (Act V)
  read_finished result b =
      let freed : BluezBridge F V = record b { refreshing = false } in
      if b.bridge_closed
      then (freed, [])
      else (let (b', acts) = take_read result freed in (after_work b', acts))

  unfoldable pub start_call : Bytes → BluezBridge F V → BluezBridge F V × List (Act V)
  start_call sender b =
      let (b', calls) =
        discovery_changed (record b { discovery = put names sender tt b.discovery }) in
      let (b'', acts) = refresh_devices true b' in (b'', told_all calls ++ returned ∷ acts)

  unfoldable pub stop_call : Bytes → BluezBridge F V → BluezBridge F V × List (Act V)
  stop_call sender b =
      let (b', calls) =
        discovery_changed (record b { discovery = erase names sender b.discovery }) in
      (b', told_all calls ++ returned ∷ [])

  -- `method`, of a sender that is the desktop's user or not
  unfoldable pub call_method :
      Bool → Bytes → Method F → BluezBridge F V → BluezBridge F V × List (Act V)
  call_method false sender m b = (b, refused "NotAuthorized" ∷ [])
  call_method true sender (register_agent path capability) b =
      register_call sender path capability b
  call_method true sender (unregister_agent path) b = unregister_call sender path b
  call_method true sender (request_default_agent path) b = default_call sender path b
  call_method true sender managed_objects b = (b, returned ∷ [])
  call_method true sender get_filters b = (b, returned ∷ [])
  call_method true sender (set_filter filters) b =
      if not (only_transport filters) || not (is_classic (get "Transport" filters))
      then (b, refused "NotSupported" ∷ [])
      else (b, returned ∷ [])
  call_method true sender start_discovery b = start_call sender b
  call_method true sender stop_discovery b = stop_call sender b
  call_method true sender (operate_device path action) b = operate_call sender path action b
  call_method true sender unsupported b = (b, refused "NotSupported" ∷ [])

  -- `heartbeat`: cached state is fed only while the revision is the one that it was read at
  unfoldable pub beat : ValueEq F → BluezBridge F V → List (Act V)
  beat q b =
      if is_some b.events.key && key_eq q b.events.key b.radio_key && active b.events
      then told_all (write_radio lib text_value feeds b)
      else []

  unfoldable pub close_bridge : ValueEq F → BluezBridge F V → BluezBridge F V
  close_bridge q b = record b {
    bridge_closed = true;
    events = close q b.events;
    discovery_timer = false;
  }
