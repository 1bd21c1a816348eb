-- ===== src/Wifi/Events.antt =====
-- Wi-Fi invalidations from the host's status channel (guest/devices/wifi_events.py, `class
-- WiFiEvents`). The class calls back into the service that owns it, so its methods are functions on
-- the owner's state. A timer is its name and its delay; the main loop fires armed timers.
use text.Mathlib.Text.{◌==◌ as str_eq}
use ashacky.Base.{
  if◌then◌else◌, is_some, Result, ℕ, ◌≡◌, Bool, true, false, not, ◌&&◌, ◌||◌, Option, none, some,
}
use ashacky.Base.Json.{Json}
use ashacky.Host.Status.{Key, is_false, Snapshot, host_revision}

pub data Source : Type 0 where
  expiry fallback watch retry refresh : Source

-- `self.sources`: the delay of each armed timer, in milliseconds
pub record Sources : Type 0 where
  pub on_expiry : Option ℕ
  pub on_fallback : Option ℕ
  pub on_watch : Option ℕ
  pub on_retry : Option ℕ
  pub on_refresh : Option ℕ

abbrev pub armed : Source → Sources → Option ℕ
armed expiry s = s.on_expiry
armed fallback s = s.on_fallback
armed watch s = s.on_watch
armed retry s = s.on_retry
armed refresh s = s.on_refresh

abbrev pub set_source : Source → Option ℕ → Sources → Sources
set_source expiry v s = record s { on_expiry = v }
set_source fallback v s = record s { on_fallback = v }
set_source watch v s = record s { on_watch = v }
set_source retry v s = record s { on_retry = v }
set_source refresh v s = record s { on_refresh = v }

abbrev pub no_sources : Sources
no_sources = record {
  on_expiry = none;
  on_fallback = none;
  on_watch = none;
  on_retry = none;
  on_refresh = none;
}

pub data Mode : Type 0 where
  events polling : Mode

pub record WifiEvents (F : Type 0) : Type 0 where
  pub key : Option (Key F)
  pub mode : Option Mode
  pub sources : Sources
  pub watcher : Bool
  pub closed : Bool

abbrev pub new_events : {F : Type 0} → WifiEvents F
new_events = record {
  key = none;
  mode = none;
  sources = no_sources;
  watcher = false;
  closed = false;
}

abbrev pub active : {F : Type 0} → WifiEvents F → Bool
active e = elim e.key [ none ↦ true | some k ↦ not (is_false k.active) ]

abbrev pub remove_source : {F : Type 0} → Source → WifiEvents F → WifiEvents F
remove_source name e = record e { sources = set_source name none e.sources }

abbrev pub later : {F : Type 0} → Source → ℕ → WifiEvents F → WifiEvents F
later name milliseconds e =
    if e.closed || is_some (armed name e.sources)
    then e
    else record e { sources = set_source name (some milliseconds) e.sources }

-- Python's `==` on parsed values, which the keys are compared with.
pub record ValueEq (F : Type 0) : Type 0 where
  pub same : Option (Json F) → Option (Json F) → Bool
  pub same_self : (v : Option (Json F)) → same v v ≡ true

module _ {F : Type 0} (q : ValueEq F) where
  abbrev pub key_eq : Option (Key F) → Option (Key F) → Bool
  key_eq none none = true
  key_eq none (some l) = false
  key_eq (some k) none = false
  key_eq (some k) (some l) =
      str_eq k.revision l.revision
      && q.same k.active l.active
      && q.same k.wake_generation l.wake_generation

abbrev pub mode_eq : Mode → Option Mode → Bool
mode_eq events (some events) = true
mode_eq polling (some polling) = true
mode_eq _ _ = false

-- The state of the owner, its events, and the callback `changed`.
pub record Owner (F S : Type 0) : Type 0 where
  pub view : S → WifiEvents F
  pub put : WifiEvents F → S → S
  pub changed : S → S

module _ {F S : Type 0} (q : ValueEq F) (o : Owner F S) where
  abbrev pub on_events : (WifiEvents F → WifiEvents F) → S → S
  on_events f s = o.put (f (o.view s)) s

  unfoldable pub fallback_tick : S → S
  fallback_tick s = on_events (later fallback 1000) (o.changed s)

  -- the part of `read_host` before the callback
  unfoldable pub next_events : Option (Key F) × ℕ → WifiEvents F → WifiEvents F
  next_events (key, remaining) e =
      let mode = if is_some key then events else polling in
      let e' = record (remove_source expiry e) { key = key; mode = some mode } in
      if is_some key
      then later expiry remaining (remove_source fallback e')
      else later fallback 1000 e'

  unfoldable pub transition : Option (Key F) → WifiEvents F → Bool
  transition key e =
      not (key_eq q key e.key) || not (mode_eq (if is_some key then events else polling) e.mode)

  unfoldable pub read_host : Result (Snapshot F) → ℕ → S → S
  read_host snapshot now s =
      let revision = host_revision "wifiRevision" snapshot now in
      let s' = on_events (next_events revision) s in
      if transition revision.0 (o.view s) then o.changed s' else s'

  -- `monitored` tells whether the directory could be watched
  unfoldable pub watch_status : Bool → Result (Snapshot F) → ℕ → S → S
  watch_status monitored snapshot now s = read_host snapshot now (
      on_events
        (λ e.
          let e' = record e { watcher = monitored } in
          if monitored then e' else later watch 1000 e')
        s)

  -- whether the directory, or the file, is among the changed paths
  unfoldable pub status_changed : Bool → Bool → Result (Snapshot F) → ℕ → S → S
  status_changed directory file snapshot now s =
      let s' = if directory then on_events (later watch 1000) s else s in
      if file || directory then read_host snapshot now s' else s'

  unfoldable pub close_events : S → S
  close_events s =
      on_events (λ e. record e { closed = true; sources = no_sources; watcher = false }) s
