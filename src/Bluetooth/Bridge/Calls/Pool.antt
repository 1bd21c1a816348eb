-- ===== src/Bluetooth/Bridge/Calls/Pool.antt =====
-- The pool has at most one operation and one read at a time (guest/devices/bluetooth_bluez.py, `submit`).
use ashacky.Base.{
  if-intro, if-cases, Bytes, Result, err, ok, ℕ, suc, ◌+◌, String, ◌≡◌, refl, ap, ◌∙◌, Bool, true,
  false, not, ◌&&◌, ◌||◌, Option, none, some, List, [], ◌∷◌, ◌++◌, arith,
}
use ashacky.Base.Json.{Json, Fields, get}
use ashacky.Base.Assoc.{lookup, has, put, erase}
use ashacky.Bluetooth.Operation.{Action}
use ashacky.Bluetooth.Events.{active, notify, retry_later}
use ashacky.Bluetooth.Bridge.Devices.{ObjectPath, paths, names, BusLibrary, Props, adapter_path}
use ashacky.Bluetooth.Bridge.{
  BluezBridge, BusCall, prop_of, is_empty_set, current_objects, radio_of, export_state,
  update_radio, update,
}
use ashacky.Bluetooth.Bridge.Calls.{
  Act, Method, told_all, is_capability, only_transport, is_classic, is_empty_props, is_value,
  registered_as, unavailable_state, register_call, unregister_call, default_call, operate_call,
  schedule_discovery, after_work, operation_finished, settle_discovering, discovery_changed,
  owner_lost, refresh_devices, read_failed, settle_read, take_read, read_finished, start_call,
  stop_call, call_method, read_devices, operate, returned, refused, submitted, told, register_agent,
  unregister_agent, request_default_agent, managed_objects, get_filters, start_discovery,
  stop_discovery, unsupported, set_filter, operate_device,
}

abbrev pub operations_of : {V : Type 0} → List (Act V) → ℕ
operations_of [] = 0
operations_of (submitted (operate path action agent) ∷ acts) = suc (operations_of acts)
operations_of (_ ∷ acts) = operations_of acts

abbrev pub reads_of : {V : Type 0} → List (Act V) → ℕ
reads_of [] = 0
reads_of (submitted (read_devices scan) ∷ acts) = suc (reads_of acts)
reads_of (_ ∷ acts) = reads_of acts

abbrev pub as_count : Bool → ℕ
as_count true = 1
as_count false = 0

module _ {V : Type 0} where
  operations_of-append :
      (xs ys : List (Act V)) → operations_of (xs ++ ys) ≡ operations_of xs + operations_of ys
  operations_of-append [] ys = omega arith
  operations_of-append (submitted (operate p a g) ∷ xs) ys =
      omega (arith, operations_of-append xs ys)
  operations_of-append (submitted (read_devices s) ∷ xs) ys = operations_of-append xs ys
  operations_of-append (returned ∷ xs) ys = operations_of-append xs ys
  operations_of-append (refused e ∷ xs) ys = operations_of-append xs ys
  operations_of-append (told c ∷ xs) ys = operations_of-append xs ys

  reads_of-append : (xs ys : List (Act V)) → reads_of (xs ++ ys) ≡ reads_of xs + reads_of ys
  reads_of-append [] ys = omega arith
  reads_of-append (submitted (operate p a g) ∷ xs) ys = reads_of-append xs ys
  reads_of-append (submitted (read_devices s) ∷ xs) ys = omega (arith, reads_of-append xs ys)
  reads_of-append (returned ∷ xs) ys = reads_of-append xs ys
  reads_of-append (refused e ∷ xs) ys = reads_of-append xs ys
  reads_of-append (told c ∷ xs) ys = reads_of-append xs ys

  pub told_all-quiet :
      (calls : List (BusCall V))
      → (operations_of (told_all calls) ≡ 0) × (reads_of (told_all calls) ≡ 0)
  told_all-quiet [] = (refl, refl)
  told_all-quiet (c ∷ calls) = told_all-quiet calls

module _ {F V : Type 0} where
  -- what most calls leave as it is
  abbrev pub Frame : BluezBridge F V → BluezBridge F V → Type 0
  Frame b b' =
      (b'.pending ≡ b.pending)
      × (b'.refreshing ≡ b.refreshing)
      × (b'.agents ≡ b.agents)
      × (b'.default_agent ≡ b.default_agent)

  Frame-then : (a b c : BluezBridge F V) → Frame a b → Frame b c → Frame a c
  Frame-then a b c f g = (g.0 ∙ f.0, g.1 ∙ f.1, g.2 ∙ f.2, g.3 ∙ f.3)

  -- what a call submits is what becomes busy by it
  abbrev pub Flows : BluezBridge F V → BluezBridge F V → List (Act V) → Type 0
  Flows b b' acts =
      (operations_of acts + as_count b.pending ≡ as_count b'.pending)
      × (reads_of acts + as_count b.refreshing ≡ as_count b'.refreshing)

  pub Flows-then :
      (a b c : BluezBridge F V) (xs ys : List (Act V))
      → Flows a b xs
      → Flows b c ys
      → Flows a c (xs ++ ys)
  Flows-then a b c xs ys f g = (
    omega (arith, operations_of-append xs ys, f.0, g.0),
    omega (arith, reads_of-append xs ys, f.1, g.1),
  )

  Frame-Flows :
      (b b' : BluezBridge F V) (calls : List (BusCall V)) → Frame b b' → Flows b b' (told_all calls)
  Frame-Flows b b' calls f =
      let (o, r) = told_all-quiet calls in
      (omega (arith, o, ap as_count f.0), omega (arith, r, ap as_count f.1))

  schedule_discovery-Frame : (b : BluezBridge F V) → Frame b (schedule_discovery b)
  unfolding schedule_discovery
  schedule_discovery-Frame b =
      if-intro (Frame b)
        (not (is_empty_set b.discovery)
          && not b.bridge_closed
          && active b.events
          && not b.events.closed)
        (record b { discovery_timer = true }) b (refl, refl, refl, refl) (refl, refl, refl, refl)

  after_work-Frame : (b : BluezBridge F V) → Frame b (after_work b)
  unfolding after_work
  after_work-Frame b =
      if-intro (λ x. Frame b (schedule_discovery x)) b.refresh_again
        (record b { refresh_again = false; events = notify b.events }) b
        (schedule_discovery-Frame (record b { refresh_again = false; events = notify b.events }))
        (schedule_discovery-Frame b)

  -- A call: the bridge after it and what it does.
  abbrev pub Moves : BluezBridge F V → BluezBridge F V × List (Act V) → Type 0
  Moves b (b', acts) = Flows b b' acts

  Frame-Moves :
      (a b : BluezBridge F V) (r : BluezBridge F V × List (Act V))
      → Frame b a
      → Moves a r
      → Moves b r
  Frame-Moves a b (b', acts) f g =
      (omega (arith, ap as_count f.0, g.0), omega (arith, ap as_count f.1, g.1))

  Moves-Frame :
      (a b c : BluezBridge F V) (acts : List (Act V))
      → Moves a (b, acts)
      → Frame b c
      → Moves a (c, acts)
  Moves-Frame a b c acts g f =
      (omega (arith, ap as_count f.0, g.0), omega (arith, ap as_count f.1, g.1))

  pub stays : (b : BluezBridge F V) → Moves b (b, [])
  stays b = (omega arith, omega arith)

  replies : (b : BluezBridge F V) (name : String) → Moves b (b, refused name ∷ [])
  replies b name = (omega arith, omega arith)

  register_call-Moves :
      (sender path : Bytes) (capability : String) (b : BluezBridge F V)
      → Moves b (register_call sender path capability b)
  unfolding register_call
  register_call-Moves sender path capability b =
      if-intro (Moves b) (not (is_capability capability)) _ _ (replies b "InvalidArguments") (
        if-intro (Moves b) (has names sender b.agents) _ _ (replies b "AlreadyExists")
          (omega arith, omega arith))

  unregister_call-Moves :
      (sender path : Bytes) (b : BluezBridge F V) → Moves b (unregister_call sender path b)
  unfolding unregister_call
  unregister_call-Moves sender path b =
      if-intro (Moves b) (not (registered_as path (lookup names sender b.agents))) _ _
        (replies b "DoesNotExist") (omega arith, omega arith)

  default_call-Moves :
      (sender path : Bytes) (b : BluezBridge F V) → Moves b (default_call sender path b)
  unfolding default_call
  default_call-Moves sender path b =
      if-intro (Moves b) (not (registered_as path (lookup names sender b.agents))) _ _
        (replies b "DoesNotExist") (omega arith, omega arith)

  operate_call-Moves :
      (sender : Bytes) (path : ObjectPath) (action : Action) (b : BluezBridge F V)
      → Moves b (operate_call sender path action b)
  unfolding operate_call
  operate_call-Moves sender path action b =
      if-cases (Moves b) b.pending _ _ (λ y. replies b "InProgress")
        (λ n. (omega (arith, ap as_count n), omega arith))

  pub operation_finished-Moves :
      (result : Result (Unit {0})) (b : BluezBridge F V)
      → Moves (record b { pending = false }) (operation_finished result b)
  unfolding operation_finished
  operation_finished-Moves (ok u) b =
      let freed : BluezBridge F V = record b { pending = false } in
      if-intro (Moves freed) b.bridge_closed _ _ (stays freed) (
        Moves-Frame freed (record freed { refresh_again = true })
          (after_work (record freed { refresh_again = true })) (returned ∷ [])
          (omega arith, omega arith) (after_work-Frame (record freed { refresh_again = true })))
  operation_finished-Moves (err e) b =
      let freed : BluezBridge F V = record b { pending = false } in
      if-intro (Moves freed) b.bridge_closed _ _ (stays freed) (
        Moves-Frame freed freed (after_work freed) (refused "Failed" ∷ []) (replies freed "Failed")
          (after_work-Frame freed))

module _ {F V : Type 0} (lib : BusLibrary F V) (text_value : Bytes → Json F) (feeds : Bool)
    (ids : ObjectPath → ℕ) where
  export_state-Frame :
      (b : BluezBridge F V) (current : Result (List (ObjectPath × Props V)))
      → Frame b (export_state lib text_value ids b current).0
  unfolding export_state
  export_state-Frame b (err e) = (refl, refl, refl, refl)
  export_state-Frame b (ok current) = (refl, refl, refl, refl)

  update_radio-Frame :
      (state : Fields F) (b : BluezBridge F V) (bits : Result ℕ)
      → Frame b (update_radio lib text_value feeds ids state b bits).0
  unfolding update_radio
  update_radio-Frame state b (err e) = (refl, refl, refl, refl)
  update_radio-Frame state b (ok bits) =
      export_state-Frame (record b { radio_state = bits; radio_key = b.events.key })
        (current_objects lib text_value state (not (is_empty_set b.discovery)))

  update-Frame :
      (state : Fields F) (b : BluezBridge F V) → Frame b (update lib text_value feeds ids state b).0
  unfolding update
  update-Frame state b = update_radio-Frame state b (radio_of lib text_value state)

  settle_discovering-Frame :
      (now : Bool) (props : Option (Props V)) (b : BluezBridge F V)
      → Frame b (settle_discovering lib text_value feeds ids now props b).0
  settle_discovering-Frame now none b = (refl, refl, refl, refl)
  settle_discovering-Frame now (some props) b =
      if-intro (λ (r : BluezBridge F V × List (BusCall V)). Frame b r.0)
        (is_empty_props props
          || is_value lib.same_value (lib.boolean now) (prop_of "Discovering" props))
        _ _ (refl, refl, refl, refl) (refl, refl, refl, refl)

  discovery_changed-Frame :
      (b : BluezBridge F V) → Frame b (discovery_changed lib text_value feeds ids b).0
  unfolding discovery_changed
  discovery_changed-Frame b =
      let now = not (is_empty_set b.discovery) in
      if-intro
        (λ x.
          Frame b
            (settle_discovering lib text_value feeds ids now (lookup paths adapter_path b.objects)
              x).0)
        now b (record b { discovery_timer = false })
        (settle_discovering-Frame now (lookup paths adapter_path b.objects) b)
        (settle_discovering-Frame now (lookup paths adapter_path b.objects)
          (record b { discovery_timer = false }))

  pub refresh_devices-Moves :
      (scan : Bool) (b : BluezBridge F V)
      → Moves b (refresh_devices lib text_value feeds ids scan b)
  unfolding refresh_devices
  refresh_devices-Moves scan b = if-intro (Moves b) b.bridge_closed _ _ (stays b) (
      if-cases (Moves b) b.refreshing _ _ (λ y. (omega arith, omega arith))
        (λ n.
          if-intro (Moves b) (not (active b.events)) _ _
            (Frame-Flows b (update lib text_value feeds ids unavailable_state b).0
              (update lib text_value feeds ids unavailable_state b).1
              (update-Frame unavailable_state b))
            (omega arith, omega (arith, ap as_count n))))

  read_failed-Moves : (b : BluezBridge F V) → Moves b (read_failed lib text_value feeds ids b)
  unfolding read_failed
  read_failed-Moves b =
      let updated = update lib text_value feeds ids unavailable_state b in
      Frame-Flows b (record updated.0 { events = retry_later updated.0.events }) updated.1
        (update-Frame unavailable_state b)

  settle_read-Moves :
      (b c : BluezBridge F V) (calls : List (BusCall V)) (result : Result (Unit {0}))
      → Frame b c
      → Moves b (settle_read lib text_value feeds ids (c, calls, result))
  settle_read-Moves b c calls (ok u) f = Frame-Flows b c calls f
  settle_read-Moves b c calls (err e) f =
      Flows-then b c (read_failed lib text_value feeds ids c).0 (told_all calls)
        (read_failed lib text_value feeds ids c).1 (Frame-Flows b c calls f) (read_failed-Moves c)

  take_read-Moves :
      (result : Result (Fields F)) (b : BluezBridge F V)
      → Moves b (take_read lib text_value feeds ids result b)
  unfolding take_read
  take_read-Moves (err e) b = read_failed-Moves b
  take_read-Moves (ok state) b =
      settle_read-Moves b (update lib text_value feeds ids state b).0
        (update lib text_value feeds ids state b).1 (update lib text_value feeds ids state b).2
        (update-Frame state b)

  pub read_finished-Moves :
      (result : Result (Fields F)) (b : BluezBridge F V)
      → Moves (record b { refreshing = false }) (read_finished lib text_value feeds ids result b)
  unfolding read_finished
  read_finished-Moves result b =
      let freed : BluezBridge F V = record b { refreshing = false } in
      let read = take_read lib text_value feeds ids result freed in
      if-intro (Moves freed) b.bridge_closed _ _ (stays freed) (
        Moves-Frame freed read.0 (after_work read.0) read.1 (take_read-Moves result freed)
          (after_work-Frame read.0))

  pub owner_lost-Moves :
      (name : Bytes) (b : BluezBridge F V) → Moves b (owner_lost lib text_value feeds ids name b)
  unfolding owner_lost
  owner_lost-Moves name b =
      let left : BluezBridge F V = record b { discovery = erase names name b.discovery } in
      Frame-Flows b (discovery_changed lib text_value feeds ids left).0
        (discovery_changed lib text_value feeds ids left).1 (discovery_changed-Frame left)

  start_call-Moves :
      (sender : Bytes) (b : BluezBridge F V)
      → Moves b (start_call lib text_value feeds ids sender b)
  unfolding start_call
  start_call-Moves sender b =
      let asked : BluezBridge F V = record b { discovery = put names sender tt b.discovery } in
      let (b', calls) = discovery_changed lib text_value feeds ids asked in
      let (b'', acts) = refresh_devices lib text_value feeds ids true b' in
      Flows-then b b' b'' (told_all calls) (returned ∷ acts)
        (Frame-Flows b b' calls (discovery_changed-Frame asked)) (refresh_devices-Moves true b')

  stop_call-Moves :
      (sender : Bytes) (b : BluezBridge F V) → Moves b (stop_call lib text_value feeds ids sender b)
  unfolding stop_call
  stop_call-Moves sender b =
      let left : BluezBridge F V = record b { discovery = erase names sender b.discovery } in
      let (b', calls) = discovery_changed lib text_value feeds ids left in
      Flows-then b b' b' (told_all calls) (returned ∷ [])
        (Frame-Flows b b' calls (discovery_changed-Frame left)) (omega arith, omega arith)

  pub call_method-Moves :
      (authorized : Bool) (sender : Bytes) (m : Method F) (b : BluezBridge F V)
      → Moves b (call_method lib text_value feeds ids authorized sender m b)
  unfolding call_method
  call_method-Moves false sender m b = replies b "NotAuthorized"
  call_method-Moves true sender (register_agent path capability) b =
      register_call-Moves sender path capability b
  call_method-Moves true sender (unregister_agent path) b = unregister_call-Moves sender path b
  call_method-Moves true sender (request_default_agent path) b = default_call-Moves sender path b
  call_method-Moves true sender managed_objects b = (omega arith, omega arith)
  call_method-Moves true sender get_filters b = (omega arith, omega arith)
  call_method-Moves true sender (set_filter filters) b =
      if-intro (Moves b)
        (not (only_transport filters) || not (is_classic (get "Transport" filters))) _ _
        (replies b "NotSupported") (omega arith, omega arith)
  call_method-Moves true sender start_discovery b = start_call-Moves sender b
  call_method-Moves true sender stop_discovery b = stop_call-Moves sender b
  call_method-Moves true sender (operate_device path action) b =
      operate_call-Moves sender path action b
  call_method-Moves true sender unsupported b = replies b "NotSupported"
