-- ===== src/Host/Tests.antt =====
-- A status file of the host and its revision (guest/devices/wifi_events.py, `host_revision`).
use ashacky.Base.{ok, ℕ, ◌≡◌, refl, true, none, some, List, [], ◌∷◌, arith}
use ashacky.Base.Json.{bool, str, end, field}
use ashacky.Host.Services.{
  Service, clean, start, recent, last_of, held_back, restart, Seen, poll_service,
}
use ashacky.Host.Services.Restarts.{restarts, Spaced, restarts-Spaced}
use ashacky.Host.Status.{Key, Snapshot}

abbrev confirmed : Snapshot ⊥
confirmed = record {
  mtime = 7000;
  value =
      field "ok" (bool true)
        (field "statusTransport" (str "virtio-serial") (field "wifiRevision" (str "r1") end));
}

abbrev first_key : Key ⊥
first_key = record { revision = "r1"; active = none; wake_generation = none }

-- A child that exits at once, each time: it is polled at 0, 5, 10, 20, 30 and 60 seconds.
abbrev failing : Service
failing = record { name = "audio"; process = 1; cleaned = none; retries = [] }

abbrev gone : ℕ → Seen
gone p = record { exited = true; spawned = ok p }

abbrev polls : List (ℕ × Seen)
polls =
    (0, gone 2)
    ∷ (5000, gone 3)
    ∷ (10000, gone 4)
    ∷ (20000, gone 5)
    ∷ (30000, gone 6)
    ∷ (60000, gone 7)
    ∷ []

failing-restarts : restarts polls failing ≡ 0 ∷ 10000 ∷ 20000 ∷ 60000 ∷ []
unfolding restarts poll_service restart held_back recent last_of start clean
failing-restarts = refl

restarts-Spaced_example : Spaced (restarts polls failing)
restarts-Spaced_example = restarts-Spaced 0 polls failing (ground arith) refl

-- Process 1 has been cleaned up, process 2 ignores its signal.
abbrev children : List Service
children =
    record { name = "audio"; process = 1; cleaned = some 1; retries = [] }
    ∷ record { name = "camera"; process = 2; cleaned = some 1; retries = [] }
    ∷ []
