-- ===== src/Wifi/Bridge/Confirmed.antt =====
-- What a connection that succeeds has confirmed (guest/devices/wifi_bridge.py, `handle_connection`).
use mathlib.Core.Path.{subst}
use ashacky.Base.{
  ◌==◌, Bool-cases, length, Bytes, bytes_eq, bytes_eq_sound, Error, Result, raise_if, >>=-eq-ok,
  raise_if-eq-ok, value_error, runtime_error, ok, ◌≡◌, refl, ap, ◌∙◌, ◌⊎◌, inl, inr, Bool, true,
  false, not, ◌&&◌, ◌||◌, Option, List, arith,
}
use ashacky.Base.Json.{Json, Fields, get}
use ashacky.Wifi.Scan.{Bss, not_unicast}
use ashacky.Wifi.Link.{compatible, actual_bss}
use ashacky.Wifi.Link.Roaming.{actual_bss-compatible}
use ashacky.Wifi.Bridge.{
  Connection, no_address, malformed, missized, target_of, has_key, any_address, choose, HostReplies,
  password_of, handle_disconnect, confirmed_address, known_records, confirm_connect, handle_connect,
  handle_connection,
}

raise_if-ok : (b : Bool) (e : Error) (u : Unit {0}) → raise_if b e ≡ ok u → b ≡ false
raise_if-ok true e u h = ground arith
raise_if-ok false e u h = refl

ok_injective : {x y : Bytes} → ok x ≡ ok y → x ≡ y
ok_injective h = cc

not-eq-false : (b : Bool) → not b ≡ false → b ≡ true
not-eq-false b h = ground arith

unicast :
    (v : Bytes)
    → (not (length v == 6) || not_unicast v) ≡ false
    → (length v ≡ 6) × (not_unicast v ≡ false)
unicast v h = ground arith

requested : (b : Bool) (v w : Bytes) → (not b && not (bytes_eq v w)) ≡ false → (b ≡ true) ⊎ (v ≡ w)
requested true v w h = inl refl
requested false v w h = inr (bytes_eq_sound v w (ground arith))

operation_is : (c : Connection) → malformed c ≡ false → (c.operation == 2) ≡ false → c.operation ≡ 1
operation_is c fine join = ground arith

module _ {F : Type 0} (truthy : Option (Json F) → Bool) (b64decode : Option (Json F) → Result Bytes)
    (from_hex : Option (Json F) → Result Bytes) where
  -- what the status says of an address
  abbrev pub Associated : Fields F → Bytes → Bytes → Type 0
  Associated state ssid address =
      (truthy (get "locationAuthorized" state) ≡ true)
      × (b64decode (get "ssidBase64" state) ≡ ok ssid)
      × (from_hex (get "bssid" state) ≡ ok address)

  confirmed_address-ok :
      (c : Connection) (state : Fields F) (actual : Bytes)
      → confirmed_address truthy b64decode from_hex c state ≡ ok actual
      → Associated state (target_of c) actual
        × (length actual ≡ 6)
        × (not_unicast actual ≡ false)
        × ((any_address c ≡ true) ⊎ (actual ≡ c.bssid))
  unfolding confirmed_address
  confirmed_address-ok c state actual h =
      let (u, a, h1) = >>=-eq-ok _ _ h in
      let (ssid, d, h2) = >>=-eq-ok _ _ h1 in
      let (u2, s, h3) = >>=-eq-ok _ _ h2 in
      let (address, f, h4) = >>=-eq-ok _ _ h3 in
      let (u3, l, h5) = >>=-eq-ok _ _ h4 in
      let (u4, r, h6) = >>=-eq-ok _ _ h5 in
      let a' = raise_if-ok _ _ u a in
      let s' = raise_if-ok _ _ u2 s in
      let l' = raise_if-ok _ _ u3 l in
      let r' = raise_if-ok _ _ u4 r in
      let same : address ≡ actual = ok_injective h6 in
      let e = bytes_eq_sound ssid (target_of c) (not-eq-false _ s') in
      (
        (not-eq-false _ a', d ∙ ap (λ x. ok x) e, f ∙ ap (λ x. ok x) same),
        subst (λ v. length v ≡ 6) same (unicast address l').0,
        subst (λ v. not_unicast v ≡ false) same (unicast address l').1,
        subst (λ v. (any_address c ≡ true) ⊎ (v ≡ c.bssid)) same
            (requested (any_address c) address c.bssid r'),
      )

  abbrev pub Reported : (Bss → Result (Unit {0})) → Connection → Bytes → Type 0
  Reported publish c actual =
      (b : Bss) × (b.ssid ≡ target_of c)
      × (b.bssid ≡ actual)
      × (compatible b (has_key c) ≡ true)
      × (publish b ≡ ok tt)

  -- A connection that succeeds at an address: a network of the scan was selected and the host connected to it
  -- with the key, if the request has one; the host then said that it is at this address on the
  -- network that was asked for; the address is a unicast one and the one that was asked for, where the
  -- request has one; and a supported access point of this network at this address was reported to
  -- the kernel.
  abbrev pub IsConnected : (Bss → Result (Unit {0})) → Connection → HostReplies F → Bytes → Type 0
  IsConnected publish c host actual =
      ((records : List Bss) × (selected : Bss) × (host.scanned ≡ ok records)
        × (choose c records ≡ ok selected)
        × (host.connect selected.network_id (password_of c) ≡ ok tt))
      × ((state : Fields F) × (host.status ≡ ok state) × Associated state (target_of c) actual)
      × ((length actual ≡ 6)
          × (not_unicast actual ≡ false)
          × ((any_address c ≡ true) ⊎ (actual ≡ c.bssid)))
      × Reported publish c actual

  confirm_connect-Associated :
      (publish : Bss → Result (Unit {0})) (c : Connection) (host : HostReplies F)
      (records : List Bss) (state : Fields F) (actual : Bytes)
      → confirm_connect truthy b64decode from_hex publish c host records state ≡ ok actual
      → Associated state (target_of c) actual
        × ((length actual ≡ 6)
            × (not_unicast actual ≡ false)
            × ((any_address c ≡ true) ⊎ (actual ≡ c.bssid)))
        × Reported publish c actual
  unfolding confirm_connect
  confirm_connect-Associated publish c host records state actual h =
      let (address, confirmed, h6) =
        >>=-eq-ok (confirmed_address truthy b64decode from_hex c state) _ h in
      let (known, k, h7) =
        >>=-eq-ok (known_records truthy b64decode from_hex c host address records) _ h6 in
      let (b, actually, h8) = >>=-eq-ok (actual_bss known (target_of c) address (has_key c)) _ h7 in
      let (published, p, h9) = >>=-eq-ok (publish b) _ h8 in
      let same : address ≡ actual = ok_injective h9 in
      let (a, l, n, r) = confirmed_address-ok c state actual (confirmed ∙ ap (λ x. ok x) same) in
      let (ssid, bssid, fits) = actual_bss-compatible known (target_of c) address _ b actually in
      (a, (l, n, r), (b, ssid, bssid ∙ same, fits, p))

  handle_connect-IsConnected :
      (publish : Bss → Result (Unit {0})) (c : Connection) (host : HostReplies F) (actual : Bytes)
      → handle_connect truthy b64decode from_hex publish c host ≡ ok actual
      → (missized c ≡ false) × IsConnected publish c host actual
  unfolding handle_connect
  handle_connect-IsConnected publish c host actual h =
      let (u, s, h1) = >>=-eq-ok (raise_if (missized c) value_error) _ h in
      let (records, scan, h2) = >>=-eq-ok host.scanned _ h1 in
      let (selected, chosen, h3) = >>=-eq-ok (choose c records) _ h2 in
      let (done, connected, h4) =
        >>=-eq-ok (host.connect selected.network_id (password_of c)) _ h3 in
      let (state, status, h5) = >>=-eq-ok host.status _ h4 in
      let (a, r, p) = confirm_connect-Associated publish c host records state actual h5 in
      (
        raise_if-ok (missized c) _ u s,
        ((records, selected, scan, chosen, connected), (state, status, a), r, p),
      )

  -- A connection request that succeeds is well-formed. A disconnection only succeeds when the status of the
  -- host, after it, says that the host is on no network; a connection only as `IsConnected` says.
  pub handle_connection-IsConnected :
      (publish : Bss → Result (Unit {0})) (c : Connection) (host : HostReplies F) (actual : Bytes)
      → handle_connection truthy b64decode from_hex publish c host ≡ ok actual
      → (malformed c ≡ false)
        × (((c.operation ≡ 2)
              × (actual ≡ no_address)
              × (host.disconnected ≡ ok tt)
              × ((state : Fields F) × (host.status ≡ ok state)
                  × (truthy (get "locationAuthorized" state) ≡ true)
                  × (truthy (get "networkIdentityAvailable" state) ≡ false)))
            ⊎ ((c.operation ≡ 1) × (missized c ≡ false) × IsConnected publish c host actual))
  unfolding handle_connection handle_disconnect
  handle_connection-IsConnected publish c host actual h = elim (Bool-cases (malformed c)) [
    | inl y ↦ ground arith
    | inr fine ↦ elim (Bool-cases (c.operation == 2)) [
      | inl leave ↦
          let r : handle_disconnect truthy b64decode from_hex host ≡ ok actual = ground arith in
          let (done, d, h1) = >>=-eq-ok _ _ r in
          let (state, s, h2) = >>=-eq-ok _ _ h1 in
          let (t, h3) =
            raise_if-eq-ok
              (not (truthy (get "locationAuthorized" state))
                || truthy (get "networkIdentityAvailable" state))
              runtime_error (ok no_address) h2 in
          (fine, inl (ground arith, ground arith, d, (state, s, ground arith, ground arith)))
      | inr join ↦
          let r : handle_connect truthy b64decode from_hex publish c host ≡ ok actual =
            ground arith in
          let (sized, connected) = handle_connect-IsConnected publish c host actual r in
          (fine, inr (operation_is c fine join, sized, connected))
    ]
  ]
