-- ===== src/Wifi/Link.antt =====
-- The link follower (guest/devices/wifi_link.py): which access points the driver supports, the host's
-- identity, and the reports to the kernel. Times are milliseconds; a flag is a bit of `flags`.
use ashacky.Base.{
  ltb, leb, ◌==◌, if◌then◌else◌, length, take, drop, filter, Bytes, bytes_eq, Result, ◌>>=◌, ◌>>◌,
  value_error, runtime_error, err, ok, ℕ, zero, suc, ◌+◌, ◌*◌, ◌/◌, ◌%◌, Bool, true, false, not,
  ◌&&◌, ◌||◌, Option, none, some, List, [], ◌∷◌,
}
use ashacky.Base.Json.{Json, Fields, get}
use ashacky.Host.Status.{is_true}
use ashacky.Wifi.Scan.{Bss, not_unicast}
pub mod Follower
pub mod Security
pub mod Roaming
pub mod Watching
mod Tests

abbrev pub ccmp : Bytes
ccmp = 0x00 ∷ 0x0f ∷ 0xac ∷ 0x04 ∷ []

abbrev pub psk : Bytes
psk = 0x00 ∷ 0x0f ∷ 0xac ∷ 0x02 ∷ []

abbrev pub wpa_oui : Bytes
wpa_oui = 0x00 ∷ 0x50 ∷ 0xf2 ∷ 0x01 ∷ []

abbrev pub starts_with : Bytes → Bytes → Bool
starts_with prefix value = bytes_eq (take (length prefix) value) prefix

-- What the loop over the elements keeps: the RSN elements, and whether a WPA one was seen.
abbrev pub note_element : ℕ → Bytes → Option (List Bytes × Bool) → Option (List Bytes × Bool)
note_element tag value none = none
note_element tag value (some (rsns, wpa)) =
    some (if tag == 48 then value ∷ rsns else rsns, tag == 221 && starts_with wpa_oui value || wpa)

-- The loop, from an offset on; `none` for a truncated element.
unfoldable pub security : ℕ → Bytes → Option (List Bytes × Bool)
security fuel [] = some ([], false)
security fuel (tag ∷ []) = none
security zero (tag ∷ size ∷ more) = none
security (suc fuel) (tag ∷ size ∷ more) =
    let later = security fuel (drop size more) in
    if ltb (length more) size then none else note_element tag (take size more) later

abbrev pub chunks : ℕ → Bytes → List Bytes
chunks zero value = []
chunks (suc n) value = take 4 value ∷ chunks n (drop 4 value)

abbrev pub mem_bytes : Bytes → List Bytes → Bool
mem_bytes v [] = false
mem_bytes v (w ∷ ws) = bytes_eq w v || mem_bytes v ws

-- One round of the loop over `(CCMP, PSK)`: what follows the list of suites.
unfoldable pub suite_list : Bytes → Bytes → Option Bytes
suite_list required (lo ∷ hi ∷ more) =
    let count = lo + 256 * hi in
    if count == 0 || ltb (length more / 4) count
    then none
    else if mem_bytes required (chunks count more)
    then some (drop (count * 4) more)
    else none
suite_list required _ = none

-- management frame protection is not required
unfoldable pub capabilities : Bytes → Bool
capabilities [] = true
capabilities (lo ∷ []) = false
capabilities (lo ∷ hi ∷ _) = (lo + 256 * hi) / 64 % 2 == 0

unfoldable pub rsn_supported : Bytes → Bool
rsn_supported value =
    if ltb (length value) 18
      || not (bytes_eq (take 2 value) (1 ∷ 0 ∷ []))
      || not (bytes_eq (take 4 (drop 2 value)) ccmp)
    then false
    else elim (suite_list ccmp (drop 6 value)) [
      | none ↦ false
      | some rest ↦ elim (suite_list psk rest) [ none ↦ false | some rest' ↦ capabilities rest' ]
    ]

abbrev pub is_empty : List Bytes → Bool
is_empty [] = true
is_empty (_ ∷ _) = false

-- `open`, and the elements, of a record that is to be open or private
unfoldable pub supported : Bool → Bool → Option (List Bytes × Bool) → Bool
supported private is_open none = false
supported false is_open (some (rsns, wpa)) = is_open && (is_empty rsns && not wpa)
supported true is_open (some (value ∷ [], wpa)) = not is_open && rsn_supported value
supported true is_open (some _) = false

unfoldable pub compatible : Bss → Bool → Bool
compatible r private =
    supported private r.open_network
      (security (length r.information_elements) r.information_elements)

-- The identity of the host's association: its SSID and address.
abbrev pub Identity : Type 0
Identity = Bytes × Bytes

abbrev pub identity_eq : Identity → Identity → Bool
identity_eq (s, a) (t, b) = bytes_eq s t && bytes_eq a b

unfoldable pub checked_identity : Bytes → Bytes → Result (Option Identity)
checked_identity ssid address =
    if ltb 0 (length ssid)
      && leb (length ssid) 32
      && length address == 6
      && not (not_unicast address)
    then ok (some (ssid, address))
    else err value_error

-- `truthy` is the truth of a value, `b64decode` and `from_hex` read the two fields, with their
-- default of an empty text.
unfoldable pub identity :
    {F : Type 0}
    → (Option (Json F) → Bool)
    → (Option (Json F) → Result Bytes)
    → (Option (Json F) → Result Bytes)
    → Fields F
    → Result (Option Identity)
identity truthy b64decode from_hex state =
    if not (is_true (get "locationAuthorized" state))
    then err runtime_error
    else if not (truthy (get "networkIdentityAvailable" state))
    then ok none
    else do
      ssid ← b64decode (get "ssidBase64" state)
      address ← from_hex (get "bssid" state)
      checked_identity ssid address

-- `matches[0]`, if it is the only one
abbrev pub only : List Bss → Result Bss
only [] = err runtime_error
only (r ∷ []) = ok r
only (_ ∷ _ ∷ _) = err runtime_error

unfoldable pub actual_bss : List Bss → Bytes → Bytes → Bool → Result Bss
actual_bss records target address private = only (
    filter (λ r. bytes_eq r.ssid target && bytes_eq r.bssid address && compatible r private)
      records)
