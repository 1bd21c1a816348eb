-- ===== src/Bluetooth/Bridge/Calls/Runs.antt =====
-- What the bridge keeps, whatever it is called with and in whatever order
-- (guest/devices/bluetooth_bluez.py, `submit`).
use ashacky.Base.{
  is_some, if-intro, Bytes, Result, ℕ, zero, suc, ◌≡◌, refl, Bool, true, false, ◌&&◌, List, [], ◌∷◌,
  arith,
}
use ashacky.Base.Json.{Json, Fields}
use ashacky.Bluetooth.Events.{Call, active, later, handle, changed, heartbeat}
use ashacky.Wifi.Events.{ValueEq, key_eq}
use ashacky.Bluetooth.Bridge.Devices.{ObjectPath, BusLibrary}
use ashacky.Bluetooth.Bridge.{BluezBridge, write_radio}
use ashacky.Bluetooth.Bridge.Calls.{
  Act, operation_finished, owner_lost, refresh_devices, read_finished, call_method, beat,
  close_bridge,
}
use ashacky.Bluetooth.Bridge.Calls.Pool.{
  operations_of, reads_of, as_count, told_all-quiet, Flows-then, Moves, stays,
  operation_finished-Moves, refresh_devices-Moves, read_finished-Moves, owner_lost-Moves,
  call_method-Moves,
}
use ashacky.Bluetooth.Bridge.Calls.Service.{
  new_bluez, Service, BridgeEvent, account, call_back, move_events, discover, end_operation,
  end_read, serve, serve_all, new_service, name_lost, method_called, operation_done, read_done,
  discovery_due, events_moved, bridge_stopped,
}

as_count-suc : (b : Bool) (n : ℕ) → suc n ≡ as_count b → n ≡ 0
as_count-suc true n h = omega arith
as_count-suc false n h = absurd (omega arith)

abbrev pub IsBalanced : {F V : Type 0} → Service F V → Type 0
IsBalanced s = (s.operations ≡ as_count s.bridge.pending) × (s.reads ≡ as_count s.bridge.refreshing)

module _ {F V : Type 0} where
  account-IsBalanced :
      (operations reads : ℕ) (b : BluezBridge F V) (r : BluezBridge F V × List (Act V))
      → operations ≡ as_count b.pending
      → reads ≡ as_count b.refreshing
      → Moves b r
      → IsBalanced (account operations reads r).0
  account-IsBalanced operations reads b (b', acts) o r m =
      (omega (arith, m.0, o), omega (arith, m.1, r))

module _ {F V : Type 0} (q : ValueEq F) (lib : BusLibrary F V) (text_value : Bytes → Json F)
    (feeds : Bool) (ids : ObjectPath → ℕ) where
  beat-quiet :
      (b : BluezBridge F V)
      → (operations_of (beat lib text_value feeds ids q b) ≡ 0)
        × (reads_of (beat lib text_value feeds ids q b) ≡ 0)
  unfolding beat
  beat-quiet b =
      if-intro (λ (acts : List (Act V)). (operations_of acts ≡ 0) × (reads_of acts ≡ 0))
        (is_some b.events.key && key_eq q b.events.key b.radio_key && active b.events) _ _
        (told_all-quiet (write_radio lib text_value feeds b)) (refl, refl)

  call_back-Moves :
      (calls : List Call) (b : BluezBridge F V)
      → Moves b (call_back q lib text_value feeds ids calls b)
  unfolding call_back
  call_back-Moves [] b = stays b
  call_back-Moves (changed ∷ calls) b =
      let (b', acts) = refresh_devices lib text_value feeds ids false b in
      let (b'', later) = call_back q lib text_value feeds ids calls b' in
      Flows-then b b' b'' acts later (refresh_devices-Moves lib text_value feeds ids false b)
        (call_back-Moves calls b')
  call_back-Moves (heartbeat ∷ calls) b =
      let (o, r) = beat-quiet b in
      let (b', later) = call_back q lib text_value feeds ids calls b in
      Flows-then b b b' (beat lib text_value feeds ids q b) later
        (omega (arith, o), omega (arith, r)) (call_back-Moves calls b)

  discover-Moves : (b : BluezBridge F V) → Moves b (discover q lib text_value feeds ids b)
  unfolding discover
  discover-Moves b =
      if-intro (Moves b) b.discovery_timer _ _
        (refresh_devices-Moves lib text_value feeds ids true (record b { discovery_timer = false }))
        (stays b)

  end_operation-IsBalanced :
      (result : Result (Unit {0})) (b : BluezBridge F V) (operations reads : ℕ)
      → operations ≡ as_count b.pending
      → reads ≡ as_count b.refreshing
      → IsBalanced (end_operation q lib text_value feeds ids result b operations reads).0
  end_operation-IsBalanced result b zero reads o r =
      account-IsBalanced 0 reads b (b, []) o r (stays b)
  end_operation-IsBalanced result b (suc operations) reads o r =
      account-IsBalanced operations reads (record b { pending = false })
        (operation_finished result b) (as_count-suc b.pending operations o) r
        (operation_finished-Moves result b)

  end_read-IsBalanced :
      (result : Result (Fields F)) (b : BluezBridge F V) (operations reads : ℕ)
      → operations ≡ as_count b.pending
      → reads ≡ as_count b.refreshing
      → IsBalanced (end_read q lib text_value feeds ids result b operations reads).0
  end_read-IsBalanced result b operations zero o r =
      account-IsBalanced operations 0 b (b, []) o r (stays b)
  end_read-IsBalanced result b operations (suc reads) o r =
      account-IsBalanced operations reads (record b { refreshing = false })
        (read_finished lib text_value feeds ids result b) o (as_count-suc b.refreshing reads r)
        (read_finished-Moves lib text_value feeds ids result b)

  serve-IsBalanced :
      (x : BridgeEvent q) (s : Service F V)
      → IsBalanced s
      → IsBalanced (serve q lib text_value feeds ids x s).0
  unfolding serve move_events close_bridge
  serve-IsBalanced (name_lost name) s (o, r) =
      account-IsBalanced s.operations s.reads s.bridge
        (owner_lost lib text_value feeds ids name s.bridge) o r
        (owner_lost-Moves lib text_value feeds ids name s.bridge)
  serve-IsBalanced (method_called authorized sender m) s (o, r) =
      account-IsBalanced s.operations s.reads s.bridge
        (call_method lib text_value feeds ids authorized sender m s.bridge) o r
        (call_method-Moves lib text_value feeds ids authorized sender m s.bridge)
  serve-IsBalanced (operation_done result) s (o, r) =
      end_operation-IsBalanced result s.bridge s.operations s.reads o r
  serve-IsBalanced (read_done result) s (o, r) =
      end_read-IsBalanced result s.bridge s.operations s.reads o r
  serve-IsBalanced discovery_due s (o, r) =
      account-IsBalanced s.operations s.reads s.bridge
        (discover q lib text_value feeds ids s.bridge) o r (discover-Moves s.bridge)
  serve-IsBalanced (events_moved x) s (o, r) =
      let (e, calls) = handle q x s.bridge.events in
      account-IsBalanced s.operations s.reads s.bridge
        (call_back q lib text_value feeds ids calls (record s.bridge { events = e })) o r
        (call_back-Moves calls (record s.bridge { events = e }))
  serve-IsBalanced bridge_stopped s (o, r) =
      account-IsBalanced s.operations s.reads s.bridge
        (close_bridge lib text_value feeds ids q s.bridge, []) o r (stays s.bridge)

  serve_all-IsBalanced_from :
      (xs : List (BridgeEvent q)) (s : Service F V)
      → IsBalanced s
      → IsBalanced (serve_all q lib text_value feeds ids xs s)
  unfolding serve_all
  serve_all-IsBalanced_from [] s b = b
  serve_all-IsBalanced_from (x ∷ xs) s b =
      serve_all-IsBalanced_from xs (serve q lib text_value feeds ids x s).0 (serve-IsBalanced x s b)

  -- Under every order of calls, timers, status changes and ends of work, the pool has at most one operation
  -- and one read that has not ended: an operation exactly while `pending` is set, which refuses the
  -- next one, and a read exactly while `refreshing` is.
  pub serve_all-IsBalanced :
      (xs : List (BridgeEvent q))
      → IsBalanced
          (serve_all q lib text_value feeds ids xs (new_service q lib text_value feeds ids))
  unfolding new_bluez
  serve_all-IsBalanced xs =
      serve_all-IsBalanced_from xs (new_service q lib text_value feeds ids) (refl, refl)
