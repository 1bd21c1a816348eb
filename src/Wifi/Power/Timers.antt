-- ===== src/Wifi/Power/Timers.antt =====
-- The radio service never stops looking at the host (guest/devices/wifi_events.py, `read_host`, in
-- the service of guest/devices/wifi_power.py).
use ashacky.Base.{is_some, Result, ℕ, ◌≡◌, false, not, arith}
use ashacky.Host.Status.{Snapshot, host_revision}
use ashacky.Wifi.Events.{ValueEq, next_events, read_host}
use ashacky.Wifi.Power.Defs.{WifiPower, notify, host_changed, owner}

-- what the callback leaves alone
host_changed-timers :
    {F : Type 0} (p : WifiPower F)
    → let l = (host_changed p).link in
      (l.sources.on_expiry ≡ p.link.sources.on_expiry)
      × (l.sources.on_fallback ≡ p.link.sources.on_fallback)
      × (l.key ≡ p.link.key)
unfolding host_changed notify
host_changed-timers p = ground arith

-- After every reading of the status, in an open service: with a revision of the host the expiry
-- timer is armed and the fallback is not; without one the fallback is armed and the expiry is not.
read_host-armed :
    {F : Type 0} (q : ValueEq F) (snapshot : Result (Snapshot F)) (now : ℕ) (p : WifiPower F)
    → p.link.closed ≡ false
    → let link = (read_host q owner snapshot now p).link in
      (is_some link.sources.on_expiry ≡ is_some link.key)
      × (is_some link.sources.on_fallback ≡ not (is_some link.key))
unfolding read_host next_events
read_host-armed {F} q snapshot now p h =
    let rev = host_revision "wifiRevision" snapshot now in
    let p₁ : WifiPower F = record p { link = next_events q owner rev p.link } in
    ground (arith, host_changed-timers p₁)
