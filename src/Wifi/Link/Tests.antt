-- ===== src/Wifi/Link/Tests.antt =====
-- A protected and an open access point, a roam and a loss (guest/devices/wifi_link.py).
use ashacky.Base.Notices.{Notice, notices_bytes}
use ashacky.Wifi.Link.Watching.{watch_changed, watch_changed_lem}
use ashacky.Wifi.Events.{ValueEq}
use ashacky.Base.{
  Bytes, Result, ok, ◌≡◌, refl, true, false, Option, none, some, [], ◌∷◌, ◌++◌, arith,
}
use ashacky.Base.Int.{negsuc}
use ashacky.Wifi.Scan.{Bss}
use ashacky.Wifi.Link.{
  ccmp, psk, security, suite_list, capabilities, rsn_supported, supported, compatible, Identity,
  actual_bss,
}
use ashacky.Wifi.Link.Follower.{Follower, Link, connected, busy, gap, roam, follow_host, update}
use ashacky.Wifi.Link.Roaming.{Roams, update-Roams, Loses, update-Loses}

-- version 1, group CCMP, pairwise CCMP, key management PSK, no capabilities
abbrev rsn : Bytes
rsn = 1 ∷ 0 ∷ ccmp ++ 1 ∷ 0 ∷ ccmp ++ 1 ∷ 0 ∷ psk

abbrev protected : Bss
protected = record {
  network_id = "id";
  ssid = 65 ∷ [];
  bssid = 2 ∷ 0 ∷ 0 ∷ 0 ∷ 0 ∷ 2 ∷ [];
  frequency_mhz = 5180;
  signal_mbm = negsuc 4999;
  information_elements = 0 ∷ 1 ∷ 65 ∷ 48 ∷ 18 ∷ rsn;
  open_network = false;
}

abbrev cafe : Bss
cafe = record protected { information_elements = 0 ∷ 1 ∷ 65 ∷ []; open_network = true }

-- connected and private
abbrev link : Link
link = record { sequence = 4; flags = 3; address = 2 ∷ 0 ∷ 0 ∷ 0 ∷ 0 ∷ 1 ∷ []; target = 65 ∷ [] }

abbrev moved : Result (Option Identity)
moved = ok (some (65 ∷ [], 2 ∷ 0 ∷ 0 ∷ 0 ∷ 0 ∷ 2 ∷ []))

abbrev fresh : Follower
fresh = record { missing = none }

update-Roams_example : (4 ≡ link.sequence) × Roams moved moved link protected
unfolding update compatible follow_host roam actual_bss supported security rsn_supported suite_list
    capabilities
update-Roams_example =
    update-Roams 0 moved (ok (cafe ∷ protected ∷ [])) moved link fresh 4 protected refl

abbrev no_identity : Result (Option Identity)
no_identity = ok none

abbrev waiting : Follower
waiting = record { missing = some (4, 1500) }

update-Loses_example :
    (4 ≡ link.sequence)
    × (connected link.flags ≡ true)
    × (busy link.flags ≡ false)
    × Loses 1600 (ok none) link waiting
unfolding update gap
update-Loses_example = update-Loses 1600 no_identity (ok []) (ok none) link waiting 4 refl

abbrev same_value : ValueEq ⊥
same_value = record { same = λ v w. true; same_self = λ v. refl }

-- the status file, renamed into place, and an overflow
abbrev renamed : Notice
renamed = record { descriptor = 1; mask = 128; cookie = 9; name = 115 ∷ 116 ∷ 0 ∷ 0 ∷ [] }

abbrev overflow : Notice
overflow = record { descriptor = 0; mask = 16384; cookie = 0; name = [] }

watch_changed_lem_example :
    watch_changed same_value
      (notices_bytes (renamed ∷ overflow ∷ []) ∷ [])
      none
      (record { descriptor = some 3; seen = none })
    ≡ (record { descriptor = none; seen = none }, ok true)
watch_changed_lem_example =
    watch_changed_lem same_value ((renamed ∷ overflow ∷ []) ∷ []) none
      (record { descriptor = some 3; seen = none }) 3 refl
      (
        (
          ((omega arith, omega arith), ((omega arith, omega arith), tt)),
          (λ e. absurd (omega arith)),
        ),
        tt,
      )
