-- ===== src/Bluetooth/Bridge/Devices.antt =====
-- The objects of the host's devices (guest/devices/bluetooth_bluez.py, `variant` and `device_props`).
use ashacky.Base.{
  ltb, leb, ◌==◌, if◌then◌else◌, Bytes, bytes_eq, bytes_eq_sound, bytes_eq_refl, Result, ◌>>=◌,
  value_error, err, ok, ℕ, suc, ◌/◌, ◌%◌, String, ◌≡◌, refl, ap, Bool, true, false, not, ◌&&◌, ◌||◌,
  Option, none, some, List, [], ◌∷◌, ◌++◌, arith,
}
use ashacky.Base.Int.{pos}
use ashacky.Base.Json.{Json, Items, Fields, get, item, bool, int, str, arr, nil, cons}
use ashacky.Base.Assoc.{KeyEq}

-- The paths that the bridge exports; that of a device is its address, behind the adapter's.
pub data ObjectPath : Type 0 where
  manager_path bluez_path adapter_path : ObjectPath
  device_path : Bytes → ObjectPath

abbrev pub path_eq : ObjectPath → ObjectPath → Bool
path_eq manager_path manager_path = true
path_eq bluez_path bluez_path = true
path_eq adapter_path adapter_path = true
path_eq (device_path a) (device_path b) = bytes_eq a b
path_eq _ _ = false

pub path_eq_sound : (p q : ObjectPath) → path_eq p q ≡ true → p ≡ q
path_eq_sound manager_path manager_path h = refl
path_eq_sound bluez_path bluez_path h = refl
path_eq_sound adapter_path adapter_path h = refl
path_eq_sound (device_path a) (device_path b) h = ap device_path (bytes_eq_sound a b h)
path_eq_sound _ _ h = ground arith

pub path_eq_refl : (p : ObjectPath) → path_eq p p ≡ true
path_eq_refl manager_path = refl
path_eq_refl bluez_path = refl
path_eq_refl adapter_path = refl
path_eq_refl (device_path a) = bytes_eq_refl a

abbrev pub paths : KeyEq ObjectPath
paths = record { same = path_eq; sound = path_eq_sound; reflexive = path_eq_refl }

-- names on the bus, and the paths of agents
abbrev pub names : KeyEq Bytes
names = record { same = bytes_eq; sound = bytes_eq_sound; reflexive = bytes_eq_refl }

-- `GLib.Variant` of a type string and a value, which may raise; a truth value never does. The values
-- are `V`.
pub data Tag : Type 0 where
  tag_number tag_texts tag_text : Tag

-- What the bridge takes from its libraries: variants and their equality, the truth of a value, the address
-- of six pairs in capital letters, an error for any other value, and the pattern of a UUID.
pub record BusLibrary (F V : Type 0) : Type 0 where
  pub boolean : Bool → V
  pub path_value : ObjectPath → V
  pub value_of : Tag → Json F → Result V
  pub same_value : V → V → Bool
  pub truthy : Option (Json F) → Bool
  pub address : Json F → Result Bytes
  pub is_uuid : Json F → Bool

abbrev pub Props : Type 0 → Type 0
Props V = List (String × V)

unfoldable pub class_of : {F : Type 0} → Json F → Result ℕ
class_of (int (pos n)) = if leb n 16777215 then ok n else err value_error
class_of _ = err value_error

abbrev pub count_items : {F : Type 0} → Items F → ℕ
count_items nil = 0
count_items (cons v vs) = suc (count_items vs)

-- the icon of a device class: `(cod >> 8) & 31`
unfoldable pub icon_of : ℕ → String
icon_of cod =
    let major = cod / 256 % 32 in
    if major == 4 then "audio-headset" else if major == 5 then "input-mouse" else "bluetooth"

module _ {F V : Type 0} (lib : BusLibrary F V) where
  unfoldable pub variant : Json F → Result V
  variant (bool b) = ok (lib.boolean b)
  variant (int n) = lib.value_of tag_number (int n)
  variant (arr es) = lib.value_of tag_texts (arr es)
  variant v = lib.value_of tag_text v

  -- `{key: variant(value) for key, value in values.items()}`
  unfoldable pub variants : List (String × Json F) → Result (Props V)
  variants [] = ok []
  variants ((key, v) ∷ values) = do
    first ← variant v
    rest ← variants values
    ok ((key, first) ∷ rest)

  unfoldable pub all_uuids : Items F → Bool
  all_uuids nil = true
  all_uuids (cons v vs) = lib.is_uuid v && all_uuids vs

  -- a list of at most 32 UUIDs, and an empty one for none
  unfoldable pub uuids_of : Option (Json F) → Result (Json F)
  uuids_of none = ok (arr nil)
  uuids_of (some (arr es)) =
      if ltb 32 (count_items es) || not (all_uuids es) then err value_error else ok (arr es)
  uuids_of (some _) = err value_error

  unfoldable pub device_values :
      Bytes → ℕ → Json F → Json F → Json F → Json F → Json F → Json F → List (String × Json F)
  device_values address cod address_value class_value uuids name paired connected =
      ("Address", address_value)
      ∷ ("AddressType", str "public")
      ∷ ("Name", name)
      ∷ ("Alias", name)
      ∷ ("Class", class_value)
      ∷ ("Icon", str (icon_of cod))
      ∷ ("Paired", paired)
      ∷ ("Bonded", paired)
      ∷ ("Connected", connected)
      ∷ ("Trusted", bool false)
      ∷ ("Blocked", bool false)
      ∷ ("ServicesResolved", bool false)
      ∷ ("UUIDs", uuids)
      ∷ ("LegacyPairing", bool false)
      ∷ []

  -- The properties of a device; `address_value` is the normalised address as a value.
  unfoldable pub checked_props : Bytes → Json F → Fields F → Result (Props V)
  checked_props address address_value record_fields = do
    class_value ← item "classOfDevice" record_fields
    cod ← class_of class_value
    uuids ← uuids_of (get "uuids" record_fields)
    name ← item "name" record_fields
    paired ← item "paired" record_fields
    connected ← item "connected" record_fields
    props ←
        variants (device_values address cod address_value class_value uuids name paired connected)
    ok (props ++ ("Adapter", lib.path_value adapter_path) ∷ [])

  unfoldable pub device_props : (Bytes → Json F) → Fields F → Result (ObjectPath × Props V)
  device_props text_value record_fields = do
    given ← item "address" record_fields
    address ← lib.address given
    props ← checked_props address (text_value address) record_fields
    ok (device_path address, props)
