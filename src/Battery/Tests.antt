-- ===== src/Battery/Tests.antt =====
-- A battery at 67 of 80 on AC power: 83.75 percent (guest/drivers/battery/feed.py).
use ashacky.Base.Notices.{Notice, notices_bytes}
use ashacky.Battery.Watching.{wait_changed, wait_changed-notices_bytes}
use ashacky.Base.{Bytes, Result, ok, ◌≡◌, true, [], ◌∷◌, arith}
use ashacky.Base.Int.{pos}
use ashacky.Base.Json.{Json, bool, int, str, obj, end, field}
use ashacky.Battery.{Line}

abbrev on_desk : Json ⊥
on_desk = obj (
    field "ok" (bool true) (
      field "battery"
        (obj (
          field "Current Capacity" (int (pos 67)) (
            field "Max Capacity" (int (pos 80))
              (field "Is Charging" (bool true) (field "Power Source State" (str "AC Power") end)))))
        end))

abbrev line_of_desk : Line
line_of_desk = record { on_ac = true; percent = 84; charging = true }

abbrev accepted : Line → Result (Unit {0})
accepted line = ok tt

-- the status file, renamed into place, and another file
abbrev status_name : Bytes
status_name = 115 ∷ 116 ∷ []

abbrev renamed : Notice
renamed = record { descriptor = 1; mask = 128; cookie = 9; name = 115 ∷ 116 ∷ 0 ∷ 0 ∷ [] }

abbrev other : Notice
other = record { descriptor = 1; mask = 256; cookie = 0; name = 120 ∷ 0 ∷ [] }

wait_changed-notices_bytes_example :
    wait_changed status_name true (notices_bytes (other ∷ renamed ∷ [])) ≡ ok true
wait_changed-notices_bytes_example =
    wait_changed-notices_bytes status_name (other ∷ renamed ∷ [])
      ((omega arith, omega arith), ((omega arith, omega arith), tt))
