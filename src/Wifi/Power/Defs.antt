-- ===== src/Wifi/Power/Defs.antt =====
-- The state of `class WiFiPower` and its methods (guest/devices/wifi_power.py). The host request
-- runs in a worker thread: `refresh` hands it out, and `finish` gets its outcome in the main loop.
use ashacky.Base.{
  ltb, ◌==◌, if◌then◌else◌, is_some, Error, Result, value_error, runtime_error, os_error, ok, err,
  ℕ, Bool, true, false, not, ◌&&◌, ◌||◌, Option, none, some, List, [], ◌∷◌,
}
use ashacky.Host.Status.{Key}
use ashacky.Wifi.Radio.{Radio, observe, attempted, apply, inactive}
use ashacky.Wifi.Events.{
  WifiEvents, active, later, ValueEq, key_eq, Owner, close_events, retry, refresh,
}

abbrev pub Attempt : Type 0
Attempt = Option (ℕ × Bool)

-- `error` is set where the code stores the exception and quits the main loop.
pub record WifiPower (F : Type 0) : Type 0 where
  pub radio : Radio
  pub link : WifiEvents F
  pub closed : Bool
  pub busy : Bool
  pub dirty : Bool
  pub failed : Bool
  pub error : Option Error

-- What one `os.read` of the rfkill device gives before it would block.
pub data RfRead : Type 0 where
  event : (index kind operation soft hard : ℕ) → RfRead
  short : RfRead
  failure : RfRead

-- `'Stopped'`, or the class of an exception that the worker caught
pub data Problem : Type 0 where
  stopped_early : Problem
  raised : Error → Problem

-- The worker: the outcomes of its two requests, the second with the `powered` of the reply if
-- that is a Boolean. It returns the state of the host, and the class of the exception caught.
unfoldable pub fetch :
    Bool → Attempt → Result (Unit {0}) → Result (Option Bool) → Option Bool × Option Problem
fetch stopped attempt changed status =
    if is_some attempt && stopped
    then (none, some stopped_early)
    else let problem =
        if is_some attempt then elim changed [ ok _ ↦ none | err e ↦ some (raised e) ] else none in
      elim status [
        | err e ↦ (none, some (raised e))
        | ok none ↦ (none, some (raised value_error))
        | ok (some powered) ↦ (some powered, problem)
      ]

-- What `refresh` hands to the worker: the key of the events at that time, and the attempt.
abbrev pub Job : Type 0 → Type 0
Job F = Option (Key F) × Attempt

module _ {F : Type 0} where
  unfoldable pub notify : WifiPower F → WifiPower F
  notify p =
      if not p.closed && active p.link
      then record p { dirty = true; link = later refresh 40 p.link }
      else p

  unfoldable pub host_changed : WifiPower F → WifiPower F
  unfolding notify inactive
  host_changed p = notify (if not (active p.link) then record p { radio = inactive p.radio } else p)

  abbrev pub owner : Owner F (WifiPower F)
  owner = record { view = λ p. p.link; put = λ e p. record p { link = e }; changed = host_changed }

  -- One event for this radio: the checks of the loop body, and the observation.
  unfoldable pub radio_event : ℕ → ℕ → ℕ → WifiPower F → Result (Unit {0}) × WifiPower F
  unfolding notify observe
  radio_event operation soft hard p =
      if operation == 1
      then (err runtime_error, p)
      else if not (operation == 0 || operation == 2) || ltb 1 soft || ltb 1 hard
      then (err value_error, p)
      else let (radio, chosen) = observe soft p.radio in
        let p' = record p { radio = radio } in (ok tt, if chosen then notify p' else p')

  unfoldable pub read_radio : List RfRead → WifiPower F → Result (Unit {0}) × WifiPower F
  unfolding radio_event
  read_radio [] p = (ok tt, p)
  read_radio (failure ∷ rs) p = (err os_error, p)
  read_radio (short ∷ rs) p = (err runtime_error, p)
  read_radio (event index kind operation soft hard ∷ rs) p =
      if not (kind == 1) || not (index == p.radio.index)
      then read_radio rs p
      else let (r, p') = radio_event operation soft hard p in
        let rest = read_radio rs p' in elim r [ ok _ ↦ rest | err e ↦ (err e, p') ]

  -- `self.error = error; self.loop.quit()`
  abbrev pub quit_on : Result (Unit {0}) × WifiPower F → WifiPower F
  quit_on (ok _, p) = p
  quit_on (err e, p) = record p { error = some e }

  -- the watch on the device; `hung_up` is its IO_ERR or IO_HUP condition
  unfoldable pub radio_ready : Bool → List RfRead → WifiPower F → WifiPower F
  unfolding read_radio
  radio_ready hung_up reads p =
      if hung_up then quit_on (err runtime_error, p) else quit_on (read_radio reads p)

  -- `refresh` after its reading of the device
  unfoldable pub refresh_read : Result (Unit {0}) × WifiPower F → WifiPower F × Option (Job F)
  refresh_read (err e, p) = (record p { error = some e }, none)
  refresh_read (ok _, p) = (
    record p { dirty = false; busy = true },
    some (p.link.key, (if p.radio.initialized then p.radio.pending else none)),
  )

  unfoldable pub refresh_radio : List RfRead → WifiPower F → WifiPower F × Option (Job F)
  unfolding read_radio refresh_read
  refresh_radio reads p =
      if p.closed || p.busy || not p.dirty || not (active p.link)
      then (p, none)
      else refresh_read (read_radio reads p)

module _ {F : Type 0} (q : ValueEq F) (write : ℕ → ℕ → Result (Unit {0})) where
  -- the outcome of `self.radio.apply` and what follows it
  unfoldable pub settle_applied :
      Radio × Option ℕ × Result (Unit {0}) → WifiPower F → Result (Unit {0}) × WifiPower F
  unfolding notify
  settle_applied (radio, _, err e) p = (err e, record p { radio = radio })
  settle_applied (radio, _, ok _) p =
      let p₁ = record p { radio = radio; dirty = is_some radio.pending || p.dirty } in
      (ok tt, if p₁.dirty then notify p₁ else p₁)

  -- The end of `finish`, for a state of the host that is still current.
  unfoldable pub settle :
      Option Bool → Option Problem → WifiPower F → Result (Unit {0}) × WifiPower F
  unfolding notify settle_applied
  settle none problem p =
      let p₁ = record p {
        failed = is_some problem;
        radio = record (p.radio) { initialized = false };
        link = later retry 1000 p.link;
      } in
      (ok tt, if p₁.dirty then notify p₁ else p₁)
  settle (some on) problem p =
      settle_applied (apply write on p.radio) (record p { failed = is_some problem })

  -- `finish` after its reading of the device
  unfoldable pub finish_read :
      Job F → Result (Option Bool × Option Problem) → Result (Unit {0}) × WifiPower F → WifiPower F
  unfolding attempted notify settle
  finish_read job future (err e, p) = record p { error = some e }
  finish_read job (err e) (ok _, p) = record p { radio = attempted job.1 p.radio; error = some e }
  finish_read job (ok (powered, problem)) (ok _, p) =
      let p' = record p { radio = attempted job.1 p.radio } in
      if not (key_eq q job.0 p'.link.key) || not (active p'.link)
      then notify p'
      else quit_on (settle powered problem p')

  unfoldable pub finish :
      List RfRead → Job F → Result (Option Bool × Option Problem) → WifiPower F → WifiPower F
  unfolding read_radio finish_read
  finish reads job future p =
      if p.closed then p else finish_read job future (read_radio reads (record p { busy = false }))

  -- `close`: the main loop is over
  unfoldable pub close_power : WifiPower F → WifiPower F
  unfolding close_events
  close_power p = close_events q owner (record p { closed = true })
