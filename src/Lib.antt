-- ===== src/Lib.antt =====
-- Verification of the guest services of Ashacky: the Python programs that keep a Linux guest in step
-- with its macOS host.
--
-- The parts and their files:
--
-- - Base: what the modules share: the native numbers, lists with a native length, a result type whose
--   errors are the exceptions the code raises and catches, JSON values as `json.loads` gives them, and
--   lists of distinct numbers.
-- - Fido: guest/auth/fido2.py. Fido/Packets is `packets`, which cuts a message into 64-byte reports.
--   Fido/Hid is class `HID`: `State` has its state, `send`, `error` and `abort`; `Defs` is `receive`, with
--   the branches `init`, `on_channel`, `begin`, `continue` and `assemble`; `Deadlines` is `complete`,
--   `timeout` and `deadline`; and the other files are what they keep. The callbacks `emit`, `request` and
--   `cancel` are effects, in the order of the calls. Fido/Relay is `Device.receive` and class `Relay`,
--   which performs these effects: `step` serves what `select` returned, in order, and ends with the
--   checks of the deadlines.
-- - Host: `host_revision`, which guest/devices/wifi_events.py, guest/devices/bluetooth_events.py and
--   guest/devices/audio_events.py each have with their own field name.
-- - Wifi: guest/devices/wifi_events.py in Wifi/Events (class `WiFiEvents`: the timers, the fallback and
--   the reading of the status file) and guest/devices/wifi_power.py in Wifi/Radio (`RadioIntent`) and
--   Wifi/Power (`WiFiPower`). The service reads the key of its `WiFiEvents`, which calls it back when
--   the host changes: `Owner` is that callback. Wifi/Power/World lets device events, timers, status
--   changes and completions of the worker come in any order.
--   Wifi/Scan is guest/devices/wifi_scan.py: `frequency` and `parse_bss`, and in Wifi/Scan/Pages `scan`.
--   Wifi/Link is guest/devices/wifi_link.py: `compatible`, `identity` and `actual_bss`, and in
--   Wifi/Link/Follower class `LinkFollower`, which takes the records of a scan.
-- - Trackpad: guest/input/trackpad.py. `Frame` is `validate`, `Pad` is `Pad.frame` with its uinput
--   writes in order, `Serve` the rounds of `serve`.
-- - Bluetooth/Events: guest/devices/bluetooth_events.py (`BluetoothEvents`). `run` lets timers, status
--   changes and calls of the service come in any order.
-- - Bluetooth/Operation: guest/devices/bluetooth_management.py (`device_operation`).
-- - Bluetooth/Bridge: guest/devices/bluetooth_bluez.py (`Bridge`). `Devices` is `device_props`, Bluetooth/Bridge has
--   `update`, `Calls` the methods and callbacks, and `Calls/Service` lets calls, the ends of the pool's
--   work and the events of Bluetooth/Events come in any order.
-- - Audio: guest/devices/audio_events.py. `Stream` is `JSONStream`, `Graph` the class of that name, `Events` and
--   `Monitor` are `AudioEvents`: the timers with the host, and what the pipe brings.
--   `Volume` is `OutputVolume` of guest/devices/audio_volume.py.
-- - Camera: guest/devices/camera_shared.py (`CameraStream`); Camera/Session is its use by the inner loop
--   of guest/devices/camera_demand.py.
-- - Battery: guest/drivers/battery/feed.py (`battery_state`, `publish`), and in Battery/Watching its
--   `StatusWatch`. Wifi/Link/Watching is the one of guest/devices/wifi_link.py. Base/Notices has the bytes
--   that the kernel gives both.
-- - Wifi/Bridge: guest/devices/wifi_bridge.py. `handle_connection` and `signal_payload` are in
--   Wifi/Bridge, the rounds of `serve` and `RequestWait` in Wifi/Bridge/Kernel. The bridge uses the scan's
--   records, the checks of Wifi/Link and its follower.
-- - Host/Services: host/session/user_services.py (`UserServices`), the children of a session.
--
-- Numbers and time: numbers are natural numbers without bound, as Python's are; where the code packs a
-- field with `struct` or masks it, the bytes are written out. Clocks are milliseconds, and each reading
-- of a clock is an input; a theorem that needs a clock that does not fall says so. Where the code
-- subtracts a later time from an earlier one and takes the maximum with 0, the subtraction of natural
-- numbers stops at 0.
--
-- Fuel: `lines` has as fuel the length of the buffer, and each line removes at least its newline, so
-- that no complete line is left; the rounds of `next_packets` are the length of the payload, divided by
-- 59. The draws of `assign` are the list of the random numbers to come: a call for which it is too short
-- has no outcome yet, and of more distinct draws than channels and two one is free.
--
-- The walks over information elements have their number of bytes as fuel, and each element has two bytes
-- or more; the pages of a scan have the total announced, and one more, and each page but the last has a
-- record.
--
-- The loop over the stream of the audio monitor has the length of its buffer as fuel, and each value that
-- is read has a character or more.
--
-- Parameters: D-Bus variants and the ids of registrations, floats and their arithmetic, the JSON parser and
-- decoder, base64 and UUID texts, the write of the rfkill device, random numbers, request ids, and everything that the operating system, GLib, evdev and the host answer.
--
-- Not modelled: what opens devices, starts main loops, prints or forks; the remaining guest services
-- (the audio bridge and the device service), the session and build tools, and the
-- code in other languages.
pub mod Base
pub mod Fido
pub mod Host
pub mod Wifi
pub mod Trackpad
pub mod Bluetooth
pub mod Camera
pub mod Audio
pub mod Battery
