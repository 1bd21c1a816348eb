-- ===== src/Wifi/Bridge/Kernel/Rounds.antt =====
-- What the rounds of the bridge keep (guest/devices/wifi_bridge.py, `serve` and `RequestWait`).
use ashacky.Base.{
  ◌==◌, Bool-cases, all, Bytes, remove, Result, err, ok, ℕ, ◌≡◌, refl, ap, inl, inr, Bool, true,
  false, ◌||◌, Option, none, some, List, [], ◌∷◌, ◌++◌, arith,
}
use ashacky.Base.Json.{Json}
use ashacky.Wifi.Link.Follower.{Follower, Link}
use ashacky.Wifi.Bridge.Kernel.{
  RequestWait, Registration, same_descriptor, unregister_old, register_new, watch_descriptor,
  KernelCall, WifiBridge, Request, bridge_round, unregister, register, connection_result,
  signal_reported, connect_request, scan_request,
}

-- the descriptors that the poller has after registrations, beside the device's
unfoldable pub apply_registrations : List Registration → List ℕ → List ℕ
apply_registrations [] polled = polled
apply_registrations (unregister a ∷ rs) polled = apply_registrations rs (remove a polled)
apply_registrations (register a ∷ rs) polled = apply_registrations rs (a ∷ polled)

abbrev pub descriptors : Option ℕ → List ℕ
descriptors none = []
descriptors (some a) = a ∷ []

registered :
    (old new : Option ℕ)
    → apply_registrations (unregister_old old ++ register_new new) (descriptors old)
      ≡ descriptors new
unfolding apply_registrations
registered none none = refl
registered none (some b) = refl
registered (some a) none = ground arith
registered (some a) (some b) = ground arith

same_descriptor_sound : (a b : Option ℕ) → same_descriptor a b ≡ true → a ≡ b
same_descriptor_sound none none h = refl
same_descriptor_sound none (some b) h = ground arith
same_descriptor_sound (some a) none h = ground arith
same_descriptor_sound (some a) (some b) h = ground arith

-- After `watch` of a bridge that the kernel notifies, the poller has the descriptor of the watcher, if it
-- has one, and no other but the device's, whatever it had before.
pub watch_descriptor_lem :
    (fd : Option ℕ) (w : RequestWait)
    → w.notified ≡ true
    → let (w', calls) = watch_descriptor fd w in
      (w'.watched ≡ fd) × (apply_registrations calls (descriptors w.watched) ≡ descriptors fd)
unfolding watch_descriptor apply_registrations
watch_descriptor_lem fd w n = elim (Bool-cases (same_descriptor w.watched fd)) [
  | inl same ↦ let e = same_descriptor_sound w.watched fd same in rw (n, same) (e, ap descriptors e)
  | inr other ↦ rw (n, other) (refl, registered w.watched fd)
]

-- no call of a scan
abbrev pub is_quiet : KernelCall → Bool
is_quiet (connection_result bytes) = true
is_quiet (signal_reported bytes) = true
is_quiet _ = false

module _ {F : Type 0} (truthy : Option (Json F) → Bool) (b64decode : Option (Json F) → Result Bytes)
    (from_hex : Option (Json F) → Result Bytes) where
  -- A round that makes no call of a scan and leaves the number of the last one.
  abbrev Quiet : WifiBridge → WifiBridge → List KernelCall → Type 0
  Quiet b b' calls = (b'.previous ≡ b.previous) × (all is_quiet calls ≡ true)

  -- The rounds of the service, until an error ends it.
  abbrev go_on :
      WifiBridge × List KernelCall × Result (Unit {0})
      → WifiBridge × List KernelCall
      → WifiBridge × List KernelCall
  go_on (b, calls, err e) later = (b, calls)
  go_on (b, calls, ok u) (b', more) = (b', calls ++ more)

  unfoldable pub bridge_rounds : List (Request F) → WifiBridge → WifiBridge × List KernelCall
  bridge_rounds [] b = (b, [])
  bridge_rounds (q ∷ qs) b =
      let now = bridge_round truthy b64decode from_hex q b in
      let later = bridge_rounds qs now.0 in go_on now later

  -- a connection request, or a round in which the kernel's scan request is none or that of `n`
  abbrev pub repeats : ℕ → Request F → Bool
  repeats n (connect_request payload publish host) = true
  repeats n (scan_request m scanned written finished r) = m == 0 || m == n
