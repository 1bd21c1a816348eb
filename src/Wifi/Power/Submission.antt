-- ===== src/Wifi/Power/Submission.antt =====
-- A choice of the user is handed to the host at most once (guest/devices/wifi_power.py).
use mathlib.Core.Path.{subst}
use ashacky.Base.{
  if◌then◌else◌, Bool-cases, Option-cases, is_some, Result, ok, err, ℕ, suc, ◌≤◌, ◌<◌, ◌≡◌, refl,
  sym, ◌∙◌, ◌⊎◌, inl, inr, Bool, true, false, not, ◌||◌, Option, none, some, List, [], ◌∷◌, arith,
}
use ashacky.Host.Status.{Key}
use ashacky.Wifi.Radio.{Radio, new_radio, attempted}
use ashacky.Wifi.Events.{
  Source, armed, new_events, active, remove_source, ValueEq, fallback_tick, read_host, watch_status,
  expiry, fallback, watch, retry, refresh,
}
use ashacky.Wifi.Power.Defs.{
  Attempt, WifiPower, RfRead, Problem, Job, notify, owner, read_radio, refresh_read, refresh_radio,
  finish_read, finish,
}
use ashacky.Wifi.Power.World.{
  World, Input, hand_out, fire, start_job, dispatch, step, run, status, expiry_fired,
  fallback_fired, watch_fired, retry_fired, refresh_fired, ready, completed, stop,
}
use ashacky.Wifi.Power.Evolution.{
  Carried, Evolves-refl, Carried-trans, Evolves-trans, attempted-Evolves, Keeps, Keeps-trans,
  notify-Keeps, read_radio-Keeps, radio_ready-Keeps, fallback_tick-Keeps, read_host-Keeps,
  watch_status-Keeps, status_changed-Keeps, close_power-Keeps, finish_read-Keeps,
}

-- Every serial in the list is below, or at most, a bound.
abbrev pub AllBelow : ℕ → List ℕ → Type 0
AllBelow n [] = Unit
AllBelow n (m ∷ ms) = (m < n) × AllBelow n ms

-- The serials rise from hand-out to hand-out.
abbrev pub Rising : List ℕ → Type 0
Rising [] = Unit
Rising (n ∷ ns) = AllBelow n ns × Rising ns

AllBelow-mono : (n m : ℕ) (ns : List ℕ) → n ≤ m → AllBelow n ns → AllBelow m ns
AllBelow-mono n m [] le h = tt
AllBelow-mono n m (k ∷ ks) le h = (omega arith, AllBelow-mono n m ks le h.1)

-- A pending attempt is younger than all that were handed out, or is the one in flight.
abbrev PendingIsFresh : {F : Type 0} → List ℕ → Option (Job F) → Attempt → Type 0
PendingIsFresh ns job none = Unit
PendingIsFresh ns none (some (n, b)) = AllBelow n ns
PendingIsFresh ns (some j) (some (n, b)) = AllBelow n ns ⊎ (j.1 ≡ some (n, b))

pub record Inv {F : Type 0} (w : World F) : Type 0 where
  pub flying : w.power.busy ≡ is_some w.in_flight
  pub bounded : AllBelow (suc w.power.radio.serial) w.submitted
  pub rising : Rising w.submitted
  pub numbered : Carried (new_radio 0 0) w.power.radio.serial w.power.radio.pending
  pub fresh : w.power.error ≡ none → PendingIsFresh w.submitted w.in_flight w.power.radio.pending

fresh-Evolves :
    {F : Type 0} (ns : List ℕ) (job : Option (Job F)) (r : Radio) (serial : ℕ) (o : Attempt)
    → AllBelow (suc r.serial) ns
    → PendingIsFresh ns job r.pending
    → Carried r serial o
    → PendingIsFresh ns job o
fresh-Evolves ns job r serial none b f c = tt
fresh-Evolves ns none r serial (some (n, x)) b f (inl new) =
    AllBelow-mono (suc r.serial) n ns (omega arith) b
fresh-Evolves ns none r serial (some (n, x)) b f (inr old) = ground arith
fresh-Evolves ns (some j) r serial (some (n, x)) b f (inl new) =
    inl (AllBelow-mono (suc r.serial) n ns (omega arith) b)
fresh-Evolves ns (some j) r serial (some (n, x)) b f (inr old) = ground arith

Keeps-Inv :
    {F : Type 0} (w : World F) (p : WifiPower F)
    → w.power.error ≡ none
    → Inv w
    → Keeps w.power p
    → Inv (record w { power = p })
Keeps-Inv w p calm v k = record {
  flying = k.0 ∙ v.flying;
  bounded = AllBelow-mono _ _ w.submitted (omega (arith, k.1.0)) v.bounded;
  rising = v.rising;
  numbered =
      Carried-trans (new_radio 0 0) w.power.radio p.radio.serial p.radio.pending
        (omega arith, v.numbered) k.1.0 k.1.1;
  fresh = λ _.
      fresh-Evolves w.submitted w.in_flight w.power.radio p.radio.serial p.radio.pending v.bounded
        (v.fresh calm) k.1.1;
}

-- Once the attempt in flight is taken back, a pending one was never handed out.
attempted-fresh :
    {F : Type 0} (ns : List ℕ) (j : Job F) (r : Radio) (o : Attempt)
    → (attempted j.1 r).pending ≡ o
    → PendingIsFresh ns (some j) r.pending
    → PendingIsFresh {F = F} ns none o
unfolding attempted
attempted-fresh ns j r none e f = tt
attempted-fresh ns j r (some (n, b)) e f = ground arith

handed_out :
    {F : Type 0} (ns : List ℕ) (i : Bool) (key : Option (Key F)) (r : Radio) (o : Attempt)
    → r.pending ≡ o
    → AllBelow (suc r.serial) ns
    → Rising ns
    → Carried (new_radio 0 0) r.serial o
    → PendingIsFresh {F = F} ns none o
    → let job : Job F = (key, if i then o else none) in
      AllBelow (suc r.serial) (hand_out job.1 ns)
      × Rising (hand_out job.1 ns)
      × PendingIsFresh (hand_out job.1 ns) (some job) o
handed_out ns true key r none e b up c f = (b, up, tt)
handed_out ns true key r (some (n, x)) e b up c f = ground arith
handed_out ns false key r none e b up c f = (b, up, tt)
handed_out ns false key r (some (n, x)) e b up c f = (b, up, inl f)

module _ {F : Type 0} (q : ValueEq F) (write : ℕ → ℕ → Result (Unit {0})) where
  refresh_read-Inv :
      (o : Result (Unit {0}) × WifiPower F) (w : World F)
      → w.power.error ≡ none
      → Inv w
      → w.in_flight ≡ none
      → Keeps w.power o.1
      → Inv (start_job q write (refresh_read o) w)
  unfolding refresh_read
  refresh_read-Inv (err e, p) w calm v landed k = Keeps-Inv w (record p { error = some e }) calm v k
  refresh_read-Inv (ok u, p) w calm v landed k =
      let v' = Keeps-Inv w p calm v k in
      let f : PendingIsFresh {F = F} w.submitted none p.radio.pending =
        subst (λ j. PendingIsFresh w.submitted j p.radio.pending) landed
          (fresh-Evolves w.submitted w.in_flight w.power.radio p.radio.serial p.radio.pending
            v.bounded (v.fresh calm) k.1.1) in
      let (b, up, fresh) =
        handed_out w.submitted p.radio.initialized p.link.key p.radio p.radio.pending refl
          v'.bounded v.rising v'.numbered f in
      record { flying = refl; bounded = b; rising = up; numbered = v'.numbered; fresh = λ _. fresh }

  refresh-Inv :
      (reads : List RfRead) (p : WifiPower F) (w : World F)
      → w.power.error ≡ none
      → Inv w
      → Keeps w.power p
      → Inv (start_job q write (refresh_radio reads p) w)
  unfolding refresh_radio
  refresh-Inv reads p w calm v k =
      elim (Bool-cases (p.closed || p.busy || not p.dirty || not (active p.link))) [
        | inl idle ↦ rw idle (Keeps-Inv w p calm v k)
        | inr go ↦
            let landed : w.in_flight ≡ none = ground (arith, v.flying, k.0) in
            rw go (
              refresh_read-Inv (read_radio reads p) w calm v landed
                (Keeps-trans w.power p (read_radio reads p).1 k (read_radio-Keeps reads p)))
      ]

  finish_open :
      (reads : List RfRead) (job : Job F) (future : Result (Option Bool × Option Problem))
      (p : WifiPower F)
      → p.closed ≡ false
      → finish q write reads job future p
        ≡ finish_read q write job future (read_radio reads (record p { busy = false }))
  unfolding finish
  finish_open reads job future p open_still = ground arith

  finish_read-Inv :
      (reads : List RfRead) (job : Job F) (future : Result (Option Bool × Option Problem))
      (w : World F)
      → w.power.error ≡ none
      → w.in_flight ≡ some job
      → Inv w
      → Inv (record w {
        power =
            finish_read q write job future (read_radio reads (record (w.power) { busy = false }));
        in_flight = none;
      })
  finish_read-Inv reads job future w calm flown v =
      let o = read_radio reads (record (w.power) { busy = false }) in
      let p' = finish_read q write job future o in
      let k = read_radio-Keeps reads (record (w.power) { busy = false }) in
      let (busy, whole, last) = finish_read-Keeps q write job future o in
      let r : Radio = attempted job.1 o.1.radio in
      let e = attempted-Evolves job.1 o.1.radio in
      let all = Evolves-trans w.power.radio o.1.radio p'.radio k.1 whole in
      let old : PendingIsFresh w.submitted (some job) w.power.radio.pending =
        subst (λ j. PendingIsFresh w.submitted j w.power.radio.pending) flown (v.fresh calm) in
      let settled : PendingIsFresh {F = F} w.submitted none r.pending =
        attempted-fresh w.submitted job o.1.radio r.pending refl (
          fresh-Evolves w.submitted (some job) w.power.radio o.1.radio.serial o.1.radio.pending
            v.bounded old k.1.1) in
      record {
        flying = busy ∙ k.0;
        bounded = AllBelow-mono _ _ w.submitted (omega (arith, all.0)) v.bounded;
        rising = v.rising;
        numbered =
            Carried-trans (new_radio 0 0) w.power.radio p'.radio.serial p'.radio.pending
              (omega arith, v.numbered) all.0 all.1;
        fresh = λ quiet. elim last [
          | inl failed ↦ absurd (failed quiet)
          | inr ev ↦
              fresh-Evolves {F = F} w.submitted none r p'.radio.serial p'.radio.pending
                (AllBelow-mono _ _ w.submitted (omega (arith, k.1.0, e.0)) v.bounded) settled ev.1
        ];
      }

  finish-Inv :
      (reads : List RfRead) (job : Job F) (future : Result (Option Bool × Option Problem))
      (w : World F)
      → w.power.error ≡ none
      → w.power.closed ≡ false
      → w.in_flight ≡ some job
      → Inv w
      → Inv (record w { power = finish q write reads job future w.power; in_flight = none })
  finish-Inv reads job future w calm open_still flown v =
      subst (λ p. Inv (record w { power = p; in_flight = none }))
        (sym (finish_open reads job future w.power open_still))
        (finish_read-Inv reads job future w calm flown v)

  fire-Keeps :
      (name : Source) (callback : WifiPower F → WifiPower F) (p : WifiPower F)
      → ((p' : WifiPower F) → Keeps p' (callback p'))
      → Keeps p (fire q write name callback p)
  fire-Keeps name callback p keeps =
      ground (arith, Evolves-refl p.radio, keeps (record p { link = remove_source name p.link }))

  dispatch-Inv :
      (i : Input F) (w : World F)
      → w.power.error ≡ none
      → w.power.closed ≡ false
      → Inv w
      → Inv (dispatch q write i w)
  unfolding dispatch
  dispatch-Inv (status directory file snapshot now) w calm o v =
      Keeps-Inv w _ calm v (status_changed-Keeps q directory file snapshot now w.power)
  dispatch-Inv (expiry_fired snapshot now) w calm o v =
      Keeps-Inv w _ calm v (
        fire-Keeps expiry (read_host q owner snapshot now) w.power (read_host-Keeps q snapshot now))
  dispatch-Inv fallback_fired w calm o v =
      Keeps-Inv w _ calm v
        (fire-Keeps fallback (fallback_tick q owner) w.power (fallback_tick-Keeps q))
  dispatch-Inv (watch_fired monitored snapshot now) w calm o v = Keeps-Inv w _ calm v (
      fire-Keeps watch (watch_status q owner monitored snapshot now) w.power
        (watch_status-Keeps q monitored snapshot now))
  dispatch-Inv retry_fired w calm o v =
      Keeps-Inv w _ calm v (fire-Keeps retry notify w.power notify-Keeps)
  dispatch-Inv (refresh_fired reads) w calm o v =
      let p : WifiPower F = record (w.power) { link = remove_source refresh w.power.link } in
      elim (Bool-cases (is_some (armed refresh w.power.link.sources))) [
        | inl due ↦ rw due (refresh-Inv reads p w calm v (refl, Evolves-refl w.power.radio))
        | inr idle ↦ rw idle v
      ]
  dispatch-Inv (ready hung_up reads) w calm o v =
      Keeps-Inv w _ calm v (radio_ready-Keeps hung_up reads w.power)
  dispatch-Inv (completed reads future) w calm o v = elim (Option-cases w.in_flight) [
    | inl landed ↦ rw (dispatch, landed) v
    | inr (job, flown) ↦ rw (dispatch, flown) (finish-Inv reads job future w calm o flown v)
  ]
  dispatch-Inv stop w calm o v = Keeps-Inv w _ calm v (close_power-Keeps q write w.power)

  step-Inv : (i : Input F) (w : World F) → Inv w → Inv (step q write i w)
  unfolding step
  step-Inv i w v = elim (Bool-cases (is_some w.power.error || w.power.closed)) [
    | inl over ↦ rw over v
    | inr on ↦ rw on (dispatch-Inv i w (ground arith) (ground arith) v)
  ]

  run-Inv : (is : List (Input F)) (w : World F) → Inv w → Inv (run q write is w)
  unfolding run
  run-Inv [] w v = v
  run-Inv (i ∷ is) w v = run-Inv is (step q write i w) (step-Inv i w v)

-- A service that has just been set up, with nothing observed and nothing handed out.
abbrev pub start : {F : Type 0} → ℕ → ℕ → World F
start index soft = record {
  power = record {
    radio = new_radio index soft;
    link = new_events;
    closed = false;
    busy = false;
    dirty = false;
    failed = false;
    error = none;
  };
  in_flight = none;
  submitted = [];
}

start-Inv : {F : Type 0} (index soft : ℕ) → Inv (start {F = F} index soft)
start-Inv index soft = record {
  flying = refl;
  bounded = tt;
  rising = tt;
  numbered = tt;
  fresh = λ _. tt;
}

-- Whatever the device, the timers, the status file, the host and the writes do, and in whatever
-- order: the serials of the attempts that the service hands to its worker strictly rise, so that no
-- choice of the user is handed out twice, also after a failure; and the service is busy exactly
-- while a request is in flight.
pub run_submits_once :
    {F : Type 0} (q : ValueEq F) (write : ℕ → ℕ → Result (Unit {0})) (index soft : ℕ)
    (is : List (Input F))
    → let w = run q write is (start index soft) in
      Rising w.submitted × (w.power.busy ≡ is_some w.in_flight)
run_submits_once q write index soft is =
    let v = run-Inv q write is (start index soft) (start-Inv index soft) in (v.rising, v.flying)
