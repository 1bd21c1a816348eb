-- ===== src/Wifi/Scan.antt =====
-- Host scan records (guest/devices/wifi_scan.py): the channels, a network entry, and the pages of a
-- scan.
use ashacky.Base.{
  ltb, leb, ◌==◌, if◌then◌else◌, length, take, drop, all, Bytes, bytes_eq, Result, ◌>>=◌, ◌>>◌,
  raise_if, value_error, attribute_error, err, ok, ℕ, zero, suc, ◌+◌, ◌*◌, ◌%◌, String, Bool, true,
  false, not, ◌&&◌, ◌||◌, Option, none, some, [], ◌∷◌, ◌++◌,
}
use ashacky.Base.Int.{ℤ, pos, negsuc}
use ashacky.Base.Json.{Json, get, item, bool, int, obj}
pub mod Elements
pub mod Pages
pub mod Frequency
pub mod Complete
mod Tests

pub record Bss : Type 0 where
  pub network_id : String
  pub ssid : Bytes
  pub bssid : Bytes
  pub frequency_mhz : ℕ
  pub signal_mbm : ℤ
  pub information_elements : Bytes
  pub open_network : Bool

-- What the scan takes from Python's library: equality of parsed values, the truth of a float,
-- `uuid.UUID` and `base64.b64decode`, and the bytes of a text of six colon-separated hexadecimal
-- pairs, `none` for any other value.
pub record Library (F : Type 0) : Type 0 where
  pub same : Json F → Json F → Bool
  pub nonzero : F → Bool
  pub uuid : Json F → Result String
  pub b64decode : Json F → Result Bytes
  pub address : Json F → Option Bytes

-- `band == 1 and 1 <= channel <= 13` and so on
unfoldable pub channel_mhz : ℕ → ℕ → Result ℕ
channel_mhz band channel =
    if band == 1 && (leb 1 channel && leb channel 13)
    then ok (2407 + 5 * channel)
    else if band == 1 && channel == 14
    then ok 2484
    else if band == 2 && (leb 1 channel && leb channel 177)
    then ok (5000 + 5 * channel)
    else if band == 3 && channel == 2
    then ok 5935
    else if band == 3 && (leb 1 channel && leb channel 233)
    then ok (5950 + 5 * channel)
    else err value_error

unfoldable pub frequency : {F : Type 0} → Json F → Json F → Result ℕ
frequency (int (pos band)) (int (pos channel)) = channel_mhz band channel
frequency _ _ = err value_error

-- The loop over the information elements; `rest` is what follows the offset, `seen` is `ssid_seen`.
unfoldable pub walk : ℕ → Bytes → Bool → Bytes → Result Bool
walk fuel ssid seen [] = ok seen
walk fuel ssid seen (tag ∷ []) = err value_error
walk zero ssid seen (tag ∷ size ∷ more) = err value_error
walk (suc fuel) ssid seen (tag ∷ size ∷ more) =
    let later = walk fuel ssid (seen || tag == 0) (drop size more) in
    if ltb (length more) size || tag == 0 && (seen || not (bytes_eq (take size more) ssid))
    then err value_error
    else later

unfoldable pub complete_elements : Bytes → Bytes → Result Bytes
complete_elements ssid ies = do
  raise_if (ltb 4096 (length ies)) value_error
  seen ← walk (length ies) ssid false ies
  ok (if seen then ies else 0 ∷ length ssid ∷ ssid ++ ies)

-- `bssid[0] & 1 or not any(bssid)`, for the six bytes of an address
unfoldable pub not_unicast : Bytes → Bool
not_unicast [] = true
not_unicast (b ∷ bs) = b % 2 == 1 || all (λ c. c == 0) (b ∷ bs)

-- `signal * 100`, where `-127 <= signal <= 0`
unfoldable pub signal_of : {F : Type 0} → Json F → Result ℤ
signal_of (int (pos n)) = if n == 0 then ok (pos 0) else err value_error
signal_of (int (negsuc n)) = if ltb n 127 then ok (negsuc (n * 100 + 99)) else err value_error
signal_of _ = err value_error

unfoldable pub classified : {F : Type 0} → Option (Json F) → Result Bool
classified (some (bool b)) = ok b
classified _ = err value_error

module _ {F : Type 0} (lib : Library F) where
  unfoldable pub bssid_of : Json F → Result Bytes
  bssid_of v = elim (lib.address v) [
    | none ↦ err value_error
    | some b ↦ if not_unicast b then err value_error else ok b
  ]

  unfoldable pub parse_bss : Json F → Result Bss
  parse_bss (obj entry) = do
    is_open ← classified (get "open" entry)
    id ← item "networkID" entry
    network_id ← lib.uuid id
    text ← item "ssidBase64" entry
    ssid ← lib.b64decode text
    raise_if (ltb 32 (length ssid)) value_error
    address ← item "bssid" entry
    bssid ← bssid_of address
    strength ← item "signalDBm" entry
    signal ← signal_of strength
    encoded ← item "informationElementsBase64" entry
    ies ← lib.b64decode encoded
    elements ← complete_elements ssid ies
    band ← item "channelBand" entry
    channel ← item "channel" entry
    mhz ← frequency band channel
    ok (record {
      network_id = network_id;
      ssid = ssid;
      bssid = bssid;
      frequency_mhz = mhz;
      signal_mbm = signal;
      information_elements = elements;
      open_network = is_open;
    })
  parse_bss _ = err attribute_error
