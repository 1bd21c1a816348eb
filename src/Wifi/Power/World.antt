-- ===== src/Wifi/Power/World.antt =====
-- The radio service in its main loop (guest/devices/wifi_power.py, `run`): events of the loop as
-- inputs, and a record of what was handed to the worker. After an error, or `close`, the loop
-- dispatches no more: the completion of a request is an idle source, and the main loop dispatches it
-- alone.
use ashacky.Base.{if◌then◌else◌, is_some, Result, ℕ, Bool, ◌||◌, Option, none, some, List, [], ◌∷◌}
use ashacky.Host.Status.{Snapshot}
use ashacky.Wifi.Events.{
  Source, armed, remove_source, ValueEq, fallback_tick, read_host, watch_status, status_changed,
  expiry, fallback, watch, retry, refresh,
}
use ashacky.Wifi.Power.Defs.{
  Attempt, WifiPower, RfRead, Problem, Job, notify, owner, radio_ready, refresh_radio, finish,
  close_power,
}

-- `submitted` are the serials of the attempts that were handed to the worker, the last one first.
pub record World (F : Type 0) : Type 0 where
  pub power : WifiPower F
  pub in_flight : Option (Job F)
  pub submitted : List ℕ

pub data Input (F : Type 0) : Type 0 where
  status : Bool → Bool → Result (Snapshot F) → ℕ → Input F
  expiry_fired : Result (Snapshot F) → ℕ → Input F
  fallback_fired : Input F
  watch_fired : Bool → Result (Snapshot F) → ℕ → Input F
  retry_fired : Input F
  refresh_fired : List RfRead → Input F
  ready : Bool → List RfRead → Input F
  completed : List RfRead → Result (Option Bool × Option Problem) → Input F
  stop : Input F

-- the serial of an attempt that is handed out
abbrev pub hand_out : Attempt → List ℕ → List ℕ
hand_out none ns = ns
hand_out (some (n, _)) ns = n ∷ ns

module _ {F : Type 0} (q : ValueEq F) (write : ℕ → ℕ → Result (Unit {0})) where
  -- `invoke` of a timer: nothing if it is not armed, else the callback without it
  abbrev pub fire : Source → (WifiPower F → WifiPower F) → WifiPower F → WifiPower F
  fire name callback p =
      if is_some (armed name p.link.sources)
      then callback (record p { link = remove_source name p.link })
      else p

  abbrev pub start_job : WifiPower F × Option (Job F) → World F → World F
  start_job (p, none) w = record w { power = p }
  start_job (p, some job) w = record w {
    power = p;
    in_flight = some job;
    submitted = hand_out job.1 w.submitted;
  }

  unfoldable pub dispatch : Input F → World F → World F
  dispatch (status directory file snapshot now) w = record w {
    power = status_changed q owner directory file snapshot now w.power;
  }
  dispatch (expiry_fired snapshot now) w = record w {
    power = fire expiry (read_host q owner snapshot now) w.power;
  }
  dispatch fallback_fired w = record w { power = fire fallback (fallback_tick q owner) w.power }
  dispatch (watch_fired monitored snapshot now) w = record w {
    power = fire watch (watch_status q owner monitored snapshot now) w.power;
  }
  dispatch retry_fired w = record w { power = fire retry notify w.power }
  dispatch (refresh_fired reads) w =
      if is_some (armed refresh w.power.link.sources)
      then start_job
          (refresh_radio reads (record (w.power) { link = remove_source refresh w.power.link })) w
      else w
  dispatch (ready hung_up reads) w = record w { power = radio_ready hung_up reads w.power }
  dispatch (completed reads future) w = elim w.in_flight [
    | none ↦ w
    | some job ↦ record w { power = finish q write reads job future w.power; in_flight = none }
  ]
  dispatch stop w = record w { power = close_power q write w.power }

  unfoldable pub step : Input F → World F → World F
  unfolding dispatch
  step i w = if is_some w.power.error || w.power.closed then w else dispatch i w

  unfoldable pub run : List (Input F) → World F → World F
  run [] w = w
  run (i ∷ is) w = run is (step i w)
