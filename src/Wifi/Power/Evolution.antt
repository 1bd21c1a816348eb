-- ===== src/Wifi/Power/Evolution.antt =====
-- How the methods of `class WiFiPower` may change the radio intent, and that they leave the busy
-- flag alone (guest/devices/wifi_power.py).
use ashacky.Base.{
  if◌then◌else◌, Bool-cases, Option-cases, is_some, Result, ok, err, ℕ, ◌≤◌, ◌<◌, ◌≡◌, refl, ◌∙◌,
  ◌≢◌, ◌⊎◌, inl, inr, Bool, true, false, not, ◌||◌, Option, none, some, List, [], ◌∷◌, arith,
}
use ashacky.Host.Status.{Snapshot, host_revision}
use ashacky.Wifi.Radio.{Radio, observe, attempted, blocked, follow, apply, inactive, Result-cases}
use ashacky.Wifi.Events.{
  active, later, ValueEq, key_eq, on_events, fallback_tick, next_events, read_host, watch_status,
  status_changed, close_events, watch, retry,
}
use ashacky.Wifi.Power.Defs.{
  Attempt, WifiPower, RfRead, Problem, Job, notify, host_changed, owner, radio_event, read_radio,
  quit_on, radio_ready, settle_applied, settle, finish_read, close_power, event, short, failure,
}

-- A pending attempt is the old one, or has a serial that was given since.
abbrev pub Carried : Radio → ℕ → Attempt → Type 0
Carried r serial none = Unit
Carried r serial (some (n, b)) = ((r.serial < n) × (n ≤ serial)) ⊎ (r.pending ≡ some (n, b))

abbrev pub Evolves : Radio → Radio → Type 0
Evolves r r' = (r.serial ≤ r'.serial) × Carried r r'.serial r'.pending

Carried-self : (r : Radio) (o : Attempt) → r.pending ≡ o → Carried r r.serial o
Carried-self r none e = tt
Carried-self r (some (n, b)) e = inr e

pub Evolves-refl : (r : Radio) → Evolves r r
Evolves-refl r = (omega arith, Carried-self r r.pending refl)

pub Carried-trans :
    (r s : Radio) (serial : ℕ) (o : Attempt)
    → Evolves r s
    → s.serial ≤ serial
    → Carried s serial o
    → Carried r serial o
Carried-trans r s serial none e le c = tt
Carried-trans r s serial (some (n, b)) e le (inl new) = inl (omega arith)
Carried-trans r s serial (some (n, b)) e le (inr old) = ground arith

pub Evolves-trans : (r s t : Radio) → Evolves r s → Evolves s t → Evolves r t
Evolves-trans r s t e f = (omega arith, Carried-trans r s t.serial t.pending e f.0 f.1)

pub observe-Evolves : (soft : ℕ) (r : Radio) → Evolves r (observe soft r).0
unfolding observe
observe-Evolves soft r = ground (arith, Evolves-refl r)

pub attempted-Evolves : (attempt : Attempt) (r : Radio) → Evolves r (attempted attempt r)
unfolding attempted
attempted-Evolves attempt r = ground (arith, Evolves-refl r)

pub inactive-Evolves : (r : Radio) → Evolves r (inactive r)
unfolding inactive
inactive-Evolves r = ground arith

follow-radio :
    (write : ℕ → ℕ → Result (Unit {0})) (powered : Bool) (r : Radio)
    → ((follow write powered r).0.serial ≡ r.serial)
      × ((follow write powered r).0.pending ≡ r.pending)
unfolding follow
follow-radio write powered r = elim (Result-cases (write r.index (blocked powered))) [
  | inl e ↦ ground arith
  | inr (x, e) ↦ ground arith
]

pub apply-Evolves :
    (write : ℕ → ℕ → Result (Unit {0})) (powered : Bool) (r : Radio)
    → Evolves r (apply write powered r).0
unfolding apply
apply-Evolves write powered r = elim (Option-cases r.pending) [
  | inl e ↦ ground (arith, follow-radio write powered (record r { initialized = true }))
  | inr ((n, b), e) ↦
      ground (arith, follow-radio write powered (record r { initialized = true; pending = none }))
]

-- What every method but `refresh` and `finish` does to the service.
abbrev pub Keeps : {F : Type 0} → WifiPower F → WifiPower F → Type 0
Keeps p p' = (p'.busy ≡ p.busy) × Evolves p.radio p'.radio

pub Keeps-trans : {F : Type 0} (p s t : WifiPower F) → Keeps p s → Keeps s t → Keeps p t
Keeps-trans p s t k l = (l.0 ∙ k.0, Evolves-trans p.radio s.radio t.radio k.1 l.1)

module _ {F : Type 0} where
  pub notify-radio : (p : WifiPower F) → ((notify p).busy ≡ p.busy) × ((notify p).radio ≡ p.radio)
  unfolding notify
  notify-radio p = ground arith

  pub notify-Keeps : (p : WifiPower F) → Keeps p (notify p)
  notify-Keeps p = ground (arith, notify-radio p, Evolves-refl p.radio)

  pub host_changed-Keeps : (p : WifiPower F) → Keeps p (host_changed p)
  unfolding host_changed
  host_changed-Keeps p = ground (
    arith,
    notify-Keeps p,
    notify-Keeps (record p { radio = inactive p.radio }),
    inactive-Evolves p.radio,
  )

  radio_event-Keeps :
      (operation soft hard : ℕ) (p : WifiPower F) → Keeps p (radio_event operation soft hard p).1
  unfolding radio_event
  radio_event-Keeps operation soft hard p = ground (
    arith,
    Evolves-refl p.radio,
    observe-Evolves soft p.radio,
    notify-Keeps (record p { radio = (observe soft p.radio).0 }),
  )

  pub read_radio-Keeps : (reads : List RfRead) (p : WifiPower F) → Keeps p (read_radio reads p).1
  unfolding read_radio
  read_radio-Keeps [] p = (refl, Evolves-refl p.radio)
  read_radio-Keeps (failure ∷ rs) p = (refl, Evolves-refl p.radio)
  read_radio-Keeps (short ∷ rs) p = (refl, Evolves-refl p.radio)
  read_radio-Keeps (event index kind operation soft hard ∷ rs) p =
      let p' = (radio_event operation soft hard p).1 in
      ground (
        arith,
        radio_event-Keeps operation soft hard p,
        read_radio-Keeps rs p,
        read_radio-Keeps rs p',
        Keeps-trans p p' (read_radio rs p').1,
      )

  pub radio_ready-Keeps :
      (hung_up : Bool) (reads : List RfRead) (p : WifiPower F)
      → Keeps p (radio_ready hung_up reads p)
  unfolding radio_ready
  radio_ready-Keeps hung_up reads p = ground (arith, Evolves-refl p.radio, read_radio-Keeps reads p)

module _ {F : Type 0} (q : ValueEq F) where
  pub fallback_tick-Keeps : (p : WifiPower F) → Keeps p (fallback_tick q owner p)
  unfolding fallback_tick
  fallback_tick-Keeps p = ground (arith, host_changed-Keeps p)

  pub read_host-Keeps :
      (snapshot : Result (Snapshot F)) (now : ℕ) (p : WifiPower F)
      → Keeps p (read_host q owner snapshot now p)
  unfolding read_host
  read_host-Keeps snapshot now p = ground (
    arith,
    Evolves-refl p.radio,
    host_changed-Keeps (record p {
      link = next_events q (owner {F = F}) (host_revision "wifiRevision" snapshot now) p.link;
    }),
  )

  pub watch_status-Keeps :
      (monitored : Bool) (snapshot : Result (Snapshot F)) (now : ℕ) (p : WifiPower F)
      → Keeps p (watch_status q owner monitored snapshot now p)
  unfolding watch_status
  watch_status-Keeps monitored snapshot now p = read_host-Keeps snapshot now _

  pub status_changed-Keeps :
      (directory file : Bool) (snapshot : Result (Snapshot F)) (now : ℕ) (p : WifiPower F)
      → Keeps p (status_changed q owner directory file snapshot now p)
  unfolding status_changed
  status_changed-Keeps true file snapshot now p =
      ground (arith, read_host-Keeps snapshot now (on_events q owner (later watch 1000) p))
  status_changed-Keeps false file snapshot now p =
      ground (arith, Evolves-refl p.radio, read_host-Keeps snapshot now p)

module _ {F : Type 0} (q : ValueEq F) (write : ℕ → ℕ → Result (Unit {0})) where
  pub close_power-Keeps : (p : WifiPower F) → Keeps p (close_power q write p)
  unfolding close_power close_events
  close_power-Keeps p = (refl, Evolves-refl p.radio)

  maybe_notify-Keeps :
      (c : Bool) (p p' : WifiPower F)
      → p'.busy ≡ p.busy
      → Evolves p.radio p'.radio
      → Keeps p (if c then notify p' else p')
  maybe_notify-Keeps true p p' b e = Keeps-trans p p' (notify p') (b, e) (notify-Keeps p')
  maybe_notify-Keeps false p p' b e = (b, e)

  settle_applied-Keeps :
      (o : Radio × Option ℕ × Result (Unit {0})) (p p' : WifiPower F)
      → p'.busy ≡ p.busy
      → Evolves p.radio o.0
      → Keeps p (settle_applied q write o p').1
  unfolding settle_applied
  settle_applied-Keeps (radio, w, err e) p p' b ev = (b, ev)
  settle_applied-Keeps (radio, w, ok u) p p' b ev =
      let p₁ : WifiPower F = record p' {
        radio = radio;
        dirty = is_some radio.pending || p'.dirty;
      } in
      maybe_notify-Keeps p₁.dirty p p₁ b ev

  pub settle-Keeps :
      (powered : Option Bool) (problem : Option Problem) (p : WifiPower F)
      → Keeps p (settle q write powered problem p).1
  unfolding settle
  settle-Keeps none problem p =
      let p₁ : WifiPower F = record p {
        failed = is_some problem;
        radio = record (p.radio) { initialized = false };
        link = later retry 1000 p.link;
      } in
      maybe_notify-Keeps p₁.dirty p p₁ refl (Evolves-refl p.radio)
  settle-Keeps (some on) problem p =
      settle_applied-Keeps (apply write on p.radio) p (record p { failed = is_some problem }) refl
        (apply-Evolves write on p.radio)

  quit_on-Keeps :
      (p : WifiPower F) (o : Result (Unit {0}) × WifiPower F) → Keeps p o.1 → Keeps p (quit_on o)
  quit_on-Keeps p (ok _, p') k = k
  quit_on-Keeps p (err e, p') k = k

  -- The end of a request: an error, or a change from the state in which the attempt was settled.
  pub finish_read-Keeps :
      (job : Job F) (future : Result (Option Bool × Option Problem))
      (o : Result (Unit {0}) × WifiPower F)
      → let p' = finish_read q write job future o in
        (p'.busy ≡ o.1.busy)
        × Evolves o.1.radio p'.radio
        × ((p'.error ≢ none) ⊎ Evolves (attempted job.1 o.1.radio) p'.radio)
  unfolding finish_read
  finish_read-Keeps job future (err e, p) = (refl, Evolves-refl p.radio, inl (λ x. cc))
  finish_read-Keeps job (err e) (ok _, p) = (refl, attempted-Evolves job.1 p.radio, inl (λ x. cc))
  finish_read-Keeps job (ok (powered, problem)) (ok _, p) =
      let radio : Radio = attempted job.1 p.radio in
      let p₁ : WifiPower F = record p { radio = radio } in
      let e = attempted-Evolves job.1 p.radio in
      elim (Bool-cases (not (key_eq q job.0 p₁.link.key) || not (active p₁.link))) [
        | inl stale ↦
            let k = notify-Keeps p₁ in
            rw stale (k.0, Evolves-trans p.radio radio (notify p₁).radio e k.1, inr k.1)
        | inr current ↦
            let k =
              quit_on-Keeps p₁ (settle q write powered problem p₁)
                (settle-Keeps powered problem p₁) in
            rw current (
              k.0,
              Evolves-trans p.radio radio (quit_on (settle q write powered problem p₁)).radio e k.1,
              inr k.1,
            )
      ]
