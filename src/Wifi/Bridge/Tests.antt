-- ===== src/Wifi/Bridge/Tests.antt =====
-- A connection to an open network, a refused one, and a published scan (guest/devices/wifi_bridge.py).
use mathlib.Core.List.{Mem}
use ashacky.Base.{
  length, replicate, filter, Bytes, Result, value_error, runtime_error, os_error, timeout_error,
  err, ok, ℕ, zero, suc, ◌≡◌, refl, ◌⊎◌, Bool, true, false, Option, none, some, [], ◌∷◌, ◌++◌,
  arith,
}
use ashacky.Base.Int.{negsuc}
use ashacky.Base.Json.{Json, Fields, get, bool, end, field}
use ashacky.Wifi.Scan.{Bss, not_unicast}
use ashacky.Wifi.Link.{security, supported, compatible, actual_bss}
use ashacky.Wifi.Bridge.{
  Connection, no_address, malformed, missized, any_address, candidate, strongest, choose,
  HostReplies, confirmed_address, known_records, confirm_connect, handle_connect, handle_connection,
}
use ashacky.Wifi.Bridge.Chosen.{NoStronger, choose_lem}
use ashacky.Wifi.Bridge.Confirmed.{IsConnected, handle_connection-IsConnected}
use ashacky.Wifi.Bridge.Kernel.{
  scan_packet, write_records, finish_scan, abort_scan, publish_scan, SignalReplies, Request,
  scan_written, scan_aborted, scan_request,
}
use ashacky.Wifi.Bridge.Kernel.Published.{
  IsFinished, IsAborted, publish_scan_ends, read_packet, read_packet-scan_packet,
}

abbrev home : Bytes
home = 2 ∷ 0 ∷ 0 ∷ 0 ∷ 0 ∷ 2 ∷ []

abbrev near : Bss
near = record {
  network_id = "near";
  ssid = 65 ∷ [];
  bssid = home;
  frequency_mhz = 5180;
  signal_mbm = negsuc 4999;
  information_elements = 0 ∷ 1 ∷ 65 ∷ [];
  open_network = true;
}

abbrev far : Bss
far = record near {
  network_id = "far";
  bssid = 2 ∷ 0 ∷ 0 ∷ 0 ∷ 0 ∷ 9 ∷ [];
  signal_mbm = negsuc 8999;
}

abbrev join : Connection
join = record {
  number = 7;
  operation = 1;
  ssid_len = 1;
  key_len = 0;
  reserved = 0;
  bssid = no_address;
  ssid = 65 ∷ replicate 31 0;
  key = replicate 32 0;
}

choose_lem_example :
    Mem near (far ∷ near ∷ [])
    × (near.ssid ≡ 65 ∷ [])
    × ((any_address join ≡ true) ⊎ (near.bssid ≡ no_address))
    × (compatible near false ≡ true)
    × NoStronger near (filter (candidate join) (far ∷ near ∷ []))
unfolding choose candidate strongest compatible supported security
choose_lem_example = choose_lem join (far ∷ near ∷ []) near refl

abbrev truth : Option (Json ⊥) → Bool
truth (some (bool b)) = b
truth _ = false

abbrev ssid_field : Option (Json ⊥) → Result Bytes
ssid_field _ = ok (65 ∷ [])

abbrev bssid_field : Option (Json ⊥) → Result Bytes
bssid_field _ = ok home

abbrev connected_state : Fields ⊥
connected_state =
    field "locationAuthorized" (bool true) (field "networkIdentityAvailable" (bool true) end)

abbrev replies : HostReplies ⊥
replies = record {
  disconnected = ok tt;
  scanned = ok (far ∷ near ∷ []);
  connect = λ network key. ok tt;
  status = ok connected_state;
  scanned_again = err value_error;
  status_again = err value_error;
}

abbrev accept : Bss → Result (Unit {0})
accept b = ok tt

handle_connection-IsConnected_example :
    (malformed join ≡ false)
    × (((join.operation ≡ 2)
          × (home ≡ no_address)
          × (replies.disconnected ≡ ok tt)
          × ((state : Fields ⊥) × (replies.status ≡ ok state)
              × (truth (get "locationAuthorized" state) ≡ true)
              × (truth (get "networkIdentityAvailable" state) ≡ false)))
        ⊎ ((join.operation ≡ 1)
            × (missized join ≡ false)
            × IsConnected truth ssid_field bssid_field accept join replies home))
unfolding handle_connection handle_connect choose candidate compatible supported security
    confirm_connect confirmed_address not_unicast known_records actual_bss
handle_connection-IsConnected_example =
    handle_connection-IsConnected truth ssid_field bssid_field accept join replies home refl

-- the same request with an address that the host does not go to
abbrev join_elsewhere : Connection
join_elsewhere = record join { bssid = 2 ∷ 0 ∷ 0 ∷ 0 ∷ 0 ∷ 9 ∷ [] }

elsewhere_refused :
    handle_connection truth ssid_field bssid_field accept join_elsewhere replies ≡ err runtime_error
unfolding handle_connection handle_connect choose candidate compatible supported security
    confirm_connect confirmed_address not_unicast
elsewhere_refused = refl

-- a device that takes every packet, and one that cuts the second
abbrev whole : ℕ → Bytes → Result ℕ
whole k packet = ok (length packet)

abbrev cut : ℕ → Bytes → Result ℕ
cut zero packet = ok (length packet)
cut (suc k) packet = ok 10

cut_aborts : publish_scan (ok (far ∷ near ∷ [])) cut (ok tt) 5 ≡ (
  scan_written (scan_packet 5 far) ∷ scan_written (scan_packet 5 near) ∷ scan_aborted 5 ∷ [],
  err runtime_error,
)
unfolding publish_scan abort_scan finish_scan write_records scan_packet
cut_aborts = refl

publish_scan_ends_example :
    IsFinished (ok (far ∷ near ∷ [])) whole 5 (publish_scan (ok (far ∷ near ∷ [])) whole (ok tt) 5)
    ⊎ IsAborted 5 (publish_scan (ok (far ∷ near ∷ [])) whole (ok tt) 5)
publish_scan_ends_example = publish_scan_ends (ok (far ∷ near ∷ [])) whole (ok tt) 5

read_packet-scan_packet_example : read_packet (scan_packet 5 near) ≡ record {
  number_field = 5;
  frequency_field = 5180;
  signal_field = 4294962296;
  capability_field = 1;
  address_field = home;
  elements_field = 0 ∷ 1 ∷ 65 ∷ [];
}
read_packet-scan_packet_example =
    read_packet-scan_packet 5 near (omega arith) (omega arith) refl (omega arith)

abbrev payload : Bytes
payload = 7 ∷ 0 ∷ 0 ∷ 0 ∷ 1 ∷ 1 ∷ 0 ∷ 0 ∷ no_address ++ (65 ∷ replicate 31 0) ++ replicate 32 0

abbrev no_signal : SignalReplies ⊥
no_signal = record {
  time = 6000;
  link = err os_error;
  watched = none;
  state = err timeout_error;
  records = err os_error;
  again = err os_error;
  reported = ok tt;
  sent = ok tt;
  stale = false;
}

abbrev same_scan : Request ⊥
same_scan = scan_request 5 (ok (near ∷ [])) whole (ok tt) no_signal
