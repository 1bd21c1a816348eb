-- ===== src/Wifi/Scan/Frequency.antt =====
-- A frequency names one channel of one band (guest/devices/wifi_scan.py, `frequency`).
use ashacky.Base.{ltb, ◌==◌, if◌then◌else◌, ok, ℕ, ◌-◌, ◌/◌, ◌≤◌, ◌≡◌, arith}
use ashacky.Base.Int.{pos}
use ashacky.Base.Json.{int}
use ashacky.Wifi.Scan.{channel_mhz, frequency}

-- The band and the channel at a frequency.
abbrev pub channel_at : ℕ → ℕ × ℕ
channel_at f =
    if ltb f 2500
    then (1, if f == 2484 then 14 else (f - 2407) / 5)
    else if ltb f 5900
    then (2, (f - 5000) / 5)
    else (3, if f == 5935 then 2 else (f - 5950) / 5)

-- The frequency of a channel leads back to it: no two channels that are accepted share one. It lies
-- between 2412 and 7115 MHz.
frequency-channel_at :
    (F : Type 0) (band channel f : ℕ)
    → frequency {F = F} (int (pos band)) (int (pos channel)) ≡ ok f
    → (channel_at f ≡ (band, channel)) × (2412 ≤ f) × (f ≤ 7115)
unfolding frequency channel_mhz
frequency-channel_at F band channel f h = ground arith
