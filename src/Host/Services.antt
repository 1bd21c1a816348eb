-- ===== src/Host/Services.antt =====
-- The background children of a VM session (host/session/user_services.py, `UserServices`): the
-- restart of a child that exited, and the end of the session. Times are milliseconds; a process is
-- the handle that `Popen` returned.
use ashacky.Base.{
  ltb, leb, ◌==◌, if◌then◌else◌, length, Result, err, ok, ℕ, ◌+◌, ◌-◌, String, Bool, false, ◌||◌,
  Option, none, some, List, [], ◌∷◌, ◌++◌,
}
pub mod Restarts
pub mod Shutdown

-- `cleaned.get(name) is process`
abbrev pub equals_process : ℕ → Option ℕ → Bool
equals_process p none = false
equals_process p (some q) = p == q

-- what the dicts `processes`, `cleaned` and `retries` hold for one name
pub record Service : Type 0 where
  pub name : String
  pub process : ℕ
  pub cleaned : Option ℕ
  pub retries : List ℕ

-- what is done to the system; `reap` is a `wait` that returned
pub data Action : Type 0 where
  launch : String → ℕ → Action
  terminate kill reap : ℕ → Action

-- `signal_group(process, SIGTERM)`, unless `cleaned.get(name) is process`
unfoldable pub clean : Service → Service × List Action
clean s =
    if equals_process s.process s.cleaned
    then (s, [])
    else (record s { cleaned = some s.process }, terminate s.process ∷ [])

-- `start`, with what `Popen` returned or raised
unfoldable pub start : Result ℕ → Service → Service × List Action × Result (Unit {0})
start (ok p) s = (record s { process = p }, launch s.name p ∷ [], ok tt)
start (err e) s = (s, [], err e)

-- `[t for t in retries if now - t < 60]`
unfoldable pub recent : ℕ → List ℕ → List ℕ
recent now [] = []
recent now (t ∷ ts) = let rest = recent now ts in if ltb (now - t) 60000 then t ∷ rest else rest

-- `retries[-1]`
unfoldable pub last_of : List ℕ → Option ℕ
last_of [] = none
last_of (t ∷ []) = some t
last_of (t ∷ u ∷ ts) = last_of (u ∷ ts)

abbrev pub too_soon : ℕ → Option ℕ → Bool
too_soon now none = false
too_soon now (some t) = ltb (now - t) 10000

-- `len(retries) >= 3 or (retries and now - retries[-1] < 10)`
unfoldable pub held_back : ℕ → List ℕ → Bool
held_back now ts = leb 3 (length ts) || too_soon now (last_of ts)

-- The body of the loop of `poll` for a child that exited.
unfoldable pub restart : ℕ → Result ℕ → Service → Service × List Action × Result (Unit {0})
restart now spawned s =
    let (cleaned, signals) = clean s in
    let retries = recent now s.retries in
    if held_back now retries
    then (record cleaned { retries = retries }, signals, ok tt)
    else let (s', launched, result) =
        start spawned (record cleaned { retries = retries ++ now ∷ [] }) in
      (s', signals ++ launched, result)

-- What the system says of a child: whether it exited, and what `Popen` would return.
pub record Seen : Type 0 where
  pub exited : Bool
  pub spawned : Result ℕ

unfoldable pub poll_service : ℕ → Seen → Service → Service × List Action × Result (Unit {0})
poll_service now seen s = if seen.exited then restart now seen.spawned s else (s, [], ok tt)

-- An exception of `start` ends the loop.
unfoldable pub poll :
    ℕ → (String → Seen) → List Service → List Service × List Action × Result (Unit {0})
poll now seen [] = ([], [], ok tt)
poll now seen (s ∷ ss) =
    let (s', actions, result) = poll_service now (seen s.name) s in
    let (ss', more, rest) = poll now seen ss in
    elim result [ err e ↦ (s' ∷ ss, actions, err e) | ok _ ↦ (s' ∷ ss', actions ++ more, rest) ]

-- The waits of `stop`: whether a process exits within what is left of the five seconds is its
-- answer to the timeout; the clock is read before each.
unfoldable pub wait_all : (ℕ → ℕ → Bool) → (ℕ → ℕ) → ℕ → ℕ → List Service → List Action
wait_all in_time clock deadline k [] = []
wait_all in_time clock deadline k (s ∷ ss) =
    let rest = wait_all in_time clock deadline (k + 1) ss in
    if in_time s.process (deadline - clock k)
    then reap s.process ∷ rest
    else kill s.process ∷ reap s.process ∷ rest

unfoldable pub signal_all : List Service → List Action
signal_all [] = []
signal_all (s ∷ ss) = (clean s).1 ++ signal_all ss

-- No child is left in `processes`.
unfoldable pub stop : (ℕ → ℕ → Bool) → (ℕ → ℕ) → List Service → List Service × List Action
stop in_time clock ss = ([], signal_all ss ++ wait_all in_time clock (clock 0 + 5000) 1 ss)
