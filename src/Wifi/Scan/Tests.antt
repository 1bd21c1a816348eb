-- ===== src/Wifi/Scan/Tests.antt =====
-- A scan of two networks on two pages (guest/devices/wifi_scan.py).
use ashacky.Base.{
  Bytes, Result, ok, ℕ, ◌≤◌, ◌≡◌, refl, ◌≢◌, true, Option, none, some, List, [], ◌∷◌,
}
use ashacky.Base.Int.{pos, negsuc}
use ashacky.Base.Json.{
  Json, Fields, get, item, null, bool, int, str, arr, obj, nil, cons, end, field,
}
use ashacky.Wifi.Scan.{
  Bss, Library, channel_mhz, frequency, walk, complete_elements, not_unicast, signal_of, classified,
  bssid_of, parse_bss,
}
use ashacky.Wifi.Scan.Elements.{encode, ssids, complete_elements-encode}
use ashacky.Wifi.Scan.Pages.{
  next_offset, truthy, parse_entries, networks, read_page, pages, total_of, first_page, scan,
}
use ashacky.Wifi.Scan.Complete.{scan_ends, scan_complete}

-- a vendor element only: the SSID is put first
complete_elements-encode_example :
    (es : List (ℕ × Bytes)) × (0 ∷ 1 ∷ 65 ∷ 221 ∷ 1 ∷ 7 ∷ [] ≡ encode es)
    × (ssids es ≡ (65 ∷ []) ∷ [])
unfolding complete_elements walk
complete_elements-encode_example =
    complete_elements-encode (65 ∷ []) (221 ∷ 1 ∷ 7 ∷ []) (0 ∷ 1 ∷ 65 ∷ 221 ∷ 1 ∷ 7 ∷ []) refl

abbrev ssid_and_rates : List (ℕ × Bytes)
ssid_and_rates = (1, 130 ∷ 132 ∷ []) ∷ (0, 65 ∷ 66 ∷ []) ∷ []

-- A library whose texts are the bytes of the one network, and of no elements.
abbrev decode : Json ⊥ → Result Bytes
decode (str _) = ok (65 ∷ [])
decode _ = ok []

abbrev library : Library ⊥
library = record {
  same = λ _ _. true;
  nonzero = λ _. true;
  uuid = λ _. ok "id";
  b64decode = decode;
  address = λ _. some (2 ∷ 0 ∷ 0 ∷ 0 ∷ 0 ∷ 1 ∷ []);
}

abbrev network : Json ⊥
network = obj (
    field "open" (bool true) (
      field "networkID" (str "id") (
        field "ssidBase64" (str "QQ==") (
          field "bssid" (str "02:00:00:00:00:01") (
            field "signalDBm" (int (negsuc 49)) (
              field "informationElementsBase64" null
                (field "channelBand" (int (pos 1)) (field "channel" (int (pos 6)) end))))))))

abbrev page : Fields ⊥ → Fields ⊥
page cursor =
    field "scanID" (str "id")
      (field "total" (int (pos 2)) (field "networks" (arr (cons network nil)) cursor))

-- the host's replies: the first page and the one at offset 1
abbrev replies : ℕ → Option (Json ⊥ × ℕ) → Result (Fields ⊥)
replies k none = ok (page (field "nextOffset" (int (pos 1)) end))
replies k (some _) = ok (page end)

abbrev record_of_network : Bss
record_of_network = record {
  network_id = "id";
  ssid = 65 ∷ [];
  bssid = 2 ∷ 0 ∷ 0 ∷ 0 ∷ 0 ∷ 1 ∷ [];
  frequency_mhz = 2437;
  signal_mbm = negsuc 4999;
  information_elements = 0 ∷ 1 ∷ 65 ∷ [];
  open_network = true;
}

two_networks : scan library replies ≡ some (ok (record_of_network ∷ record_of_network ∷ []))
unfolding scan first_page item total_of truthy pages read_page networks parse_entries parse_bss
    classified bssid_of not_unicast signal_of complete_elements walk frequency channel_mhz
    next_offset
two_networks = refl

scan_ends_example : scan library replies ≢ none
scan_ends_example = scan_ends library replies

scan_complete_example :
    (first : Fields ⊥) × (replies 0 none ≡ ok first)
    × (get "total" first ≡ some (int (pos 2)))
    × (2 ≤ 256)
scan_complete_example =
    scan_complete library replies (record_of_network ∷ record_of_network ∷ []) two_networks
