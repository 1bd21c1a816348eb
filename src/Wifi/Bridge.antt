-- ===== src/Wifi/Bridge.antt =====
-- The Wi-Fi bridge (guest/devices/wifi_bridge.py): the kernel's connection requests, how they are
-- carried out on the host, and the signal that is reported.
use ashacky.Base.{
  ltb, leb, ◌==◌, if◌then◌else◌, length, get_or, take, drop, any, filter, Bytes, bytes_eq, Result,
  ◌>>=◌, ◌>>◌, raise_if, value_error, runtime_error, err, ok, ℕ, ◌-◌, String, Bool, not, ◌&&◌, ◌||◌,
  Option, none, some, List, [], ◌∷◌, ◌++◌,
}
use ashacky.Base.Int.{ltb_ℤ, pos, negsuc}
use ashacky.Base.Packing.{unpack_little}
use ashacky.Base.Json.{Json, Fields, get, int, str}
use ashacky.Host.Status.{is_true}
use ashacky.Wifi.Scan.{Bss, not_unicast}
use ashacky.Wifi.Link.{compatible, identity, actual_bss}
use ashacky.Wifi.Link.Follower.{identity_is}
pub mod Chosen
pub mod Confirmed
pub mod Kernel
mod Tests

-- `CONNECTION.unpack`
pub record Connection : Type 0 where
  pub number : ℕ
  pub operation : ℕ
  pub ssid_len : ℕ
  pub key_len : ℕ
  pub reserved : ℕ
  pub bssid : Bytes
  pub ssid : Bytes
  pub key : Bytes

unfoldable pub unpack_connection : Bytes → Connection
unpack_connection payload = record {
  number = unpack_little (take 4 payload);
  operation = get_or payload 4 0;
  ssid_len = get_or payload 5 0;
  key_len = get_or payload 6 0;
  reserved = get_or payload 7 0;
  bssid = take 6 (drop 8 payload);
  ssid = take 32 (drop 14 payload);
  key = take 32 (drop 46 payload);
}

abbrev pub no_address : Bytes
no_address = 0 ∷ 0 ∷ 0 ∷ 0 ∷ 0 ∷ 0 ∷ []

-- `not number or operation not in (1, 2) or reserved`
abbrev pub malformed : Connection → Bool
malformed c = c.number == 0 || not (c.operation == 1 || c.operation == 2) || not (c.reserved == 0)

-- `not 1 <= ssid_len <= 32 or key_len not in (0, 32)`
abbrev pub missized : Connection → Bool
missized c = not (leb 1 c.ssid_len && leb c.ssid_len 32) || not (c.key_len == 0 || c.key_len == 32)

abbrev pub target_of : Connection → Bytes
target_of c = take c.ssid_len c.ssid

abbrev pub has_key : Connection → Bool
has_key c = not (c.key_len == 0)

abbrev pub any_address : Connection → Bool
any_address c = bytes_eq c.bssid no_address

unfoldable pub candidate : Connection → Bss → Bool
candidate c r =
    bytes_eq r.ssid (target_of c)
    && (any_address c || bytes_eq r.bssid c.bssid)
    && compatible r (has_key c)

-- `max(candidates, key=lambda record: record.signal_mbm)`, the first of the strongest
unfoldable pub strongest : Bss → List Bss → Bss
strongest best [] = best
strongest best (r ∷ rs) = strongest (if ltb_ℤ best.signal_mbm r.signal_mbm then r else best) rs

abbrev pub strongest_of : List Bss → Result Bss
strongest_of [] = err runtime_error
strongest_of (r ∷ rs) = ok (strongest r rs)

unfoldable pub choose : Connection → List Bss → Result Bss
choose c records = strongest_of (filter (candidate c) records)

-- What the host answers to the requests of one connection request, in their order: the disconnection, or
-- a scan, the connection to a network with an optional key, its status, and, when the access point
-- is not in the records, a second scan and a second status.
pub record HostReplies (F : Type 0) : Type 0 where
  pub disconnected : Result (Unit {0})
  pub scanned : Result (List Bss)
  pub connect : String → Option Bytes → Result (Unit {0})
  pub status : Result (Fields F)
  pub scanned_again : Result (List Bss)
  pub status_again : Result (Fields F)

abbrev pub password_of : Connection → Option Bytes
password_of c = if has_key c then some c.key else none

-- `truthy` is the truth of a value, `b64decode` and `from_hex` read the two fields, with their
-- default of an empty text.
module _ {F : Type 0} (truthy : Option (Json F) → Bool) (b64decode : Option (Json F) → Result Bytes)
    (from_hex : Option (Json F) → Result Bytes) where
  unfoldable pub handle_disconnect : HostReplies F → Result Bytes
  handle_disconnect host = do
    done ← host.disconnected
    state ← host.status
    raise_if
        (not (truthy (get "locationAuthorized" state))
          || truthy (get "networkIdentityAvailable" state))
        runtime_error
    ok no_address

  -- what the status after the connection has to say
  unfoldable pub confirmed_address : Connection → Fields F → Result Bytes
  confirmed_address c state = do
    raise_if (not (truthy (get "locationAuthorized" state))) runtime_error
    ssid ← b64decode (get "ssidBase64" state)
    raise_if (not (bytes_eq ssid (target_of c))) runtime_error
    actual ← from_hex (get "bssid" state)
    raise_if (not (length actual == 6) || not_unicast actual) runtime_error
    raise_if (not (any_address c) && not (bytes_eq actual c.bssid)) runtime_error
    ok actual

  -- `scan` again, and check that the host is still there
  unfoldable pub rescan : Connection → HostReplies F → Bytes → Result (List Bss)
  rescan c host actual = do
    records ← host.scanned_again
    state ← host.status_again
    now ← identity truthy b64decode from_hex state
    raise_if (not (identity_is now (target_of c, actual))) runtime_error
    ok records

  unfoldable pub known_records : Connection → HostReplies F → Bytes → List Bss → Result (List Bss)
  known_records c host actual records =
      if any (λ r. bytes_eq r.ssid (target_of c) && bytes_eq r.bssid actual) records
      then ok records
      else rescan c host actual

  -- After the connection: `publish` reports the access point to the kernel.
  unfoldable pub confirm_connect :
      (Bss → Result (Unit {0})) → Connection → HostReplies F → List Bss → Fields F → Result Bytes
  confirm_connect publish c host records state = do
    actual ← confirmed_address c state
    known ← known_records c host actual records
    confirmed ← actual_bss known (target_of c) actual (has_key c)
    published ← publish confirmed
    ok actual

  unfoldable pub handle_connect :
      (Bss → Result (Unit {0})) → Connection → HostReplies F → Result Bytes
  handle_connect publish c host = do
    raise_if (missized c) value_error
    records ← host.scanned
    selected ← choose c records
    done ← host.connect selected.network_id (password_of c)
    state ← host.status
    confirm_connect publish c host records state

  unfoldable pub handle_connection :
      (Bss → Result (Unit {0})) → Connection → HostReplies F → Result Bytes
  handle_connection publish c host =
      if malformed c
      then err value_error
      else if c.operation == 2
      then handle_disconnect host
      else handle_connect publish c host

  -- `struct.pack('<6sbB', address, value, 0)`; `address` is what `from_hex` made of the BSSID, and
  -- a BSSID that is no text raises a ValueError
  unfoldable pub signal_value : Option (Json F) → Result ℕ
  signal_value (some (int (pos n))) = if n == 0 then ok 0 else err value_error
  signal_value (some (int (negsuc n))) = if ltb n 127 then ok (255 - n) else err value_error
  signal_value _ = err value_error

  unfoldable pub signal_address : Option (Json F) → Result Bytes
  signal_address (some (str s)) = do
    address ← from_hex (some (str s))
    raise_if (not (length address == 6) || not_unicast address) value_error
    ok address
  signal_address _ = err value_error

  unfoldable pub signal_payload : Fields F → Result (Option Bytes)
  signal_payload state =
      if not (truthy (get "locationAuthorized" state))
        || not (truthy (get "networkIdentityAvailable" state))
      then ok none
      else do
        value ← signal_value (get "signalDBm" state)
        address ← signal_address (get "bssid" state)
        ok (some (address ++ value ∷ 0 ∷ []))
