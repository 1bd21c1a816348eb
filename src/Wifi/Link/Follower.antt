-- ===== src/Wifi/Link/Follower.antt =====
-- The link follower's state and its update (guest/devices/wifi_link.py, `LinkFollower`).
use ashacky.Base.{
  ltb, leb, ◌==◌, if◌then◌else◌, length, take, Bytes, bytes_eq, Result, ◌>>=◌, value_error, err, ok,
  ℕ, ◌+◌, ◌/◌, ◌%◌, Bool, false, not, ◌&&◌, ◌||◌, Option, none, some, List, [], ◌∷◌,
}
use ashacky.Wifi.Scan.{Bss, not_unicast}
use ashacky.Wifi.Link.{Identity, identity_eq, actual_bss}

-- `missing`: the link whose identity is missing, and since when plus a second
pub record Follower : Type 0 where
  pub missing : Option (ℕ × ℕ)

pub record Link : Type 0 where
  pub sequence : ℕ
  pub flags : ℕ
  pub address : Bytes
  pub target : Bytes

-- `report`, for a loss and for a roam
pub data Report : Type 0 where
  lost : ℕ → Report
  roamed : ℕ → Bss → Report

abbrev pub connected : ℕ → Bool
connected flags = flags % 2 == 1

abbrev pub private_link : ℕ → Bool
private_link flags = flags / 2 % 2 == 1

abbrev pub pinned : ℕ → Bool
pinned flags = flags / 4 % 2 == 1

abbrev pub busy : ℕ → Bool
busy flags = flags / 8 % 2 == 1

-- `snapshot`, from the unpacked fields of the kernel's link
unfoldable pub snapshot : ℕ → ℕ → ℕ → ℕ → Bytes → Bytes → Result Link
snapshot sequence flags size reserved address ssid =
    if leb 16 flags
      || not (reserved == 0)
      || ltb 32 size
      || connected flags && (size == 0 || not (length address == 6) || not_unicast address)
    then err value_error
    else ok
        (record { sequence = sequence; flags = flags; address = address; target = take size ssid })

abbrev pub waits_on : ℕ → Option (ℕ × ℕ) → Bool
waits_on sequence none = false
waits_on sequence (some (s, _)) = s == sequence

abbrev pub too_early : ℕ → Option (ℕ × ℕ) → Bool
too_early now none = false
too_early now (some (_, deadline)) = ltb now deadline

-- The host has no identity: a first gap starts the second, a confirmed one is a loss.
unfoldable pub gap : ℕ → ℕ → Follower → Follower × List Report × Result (Unit {0})
gap now sequence f =
    if not (waits_on sequence f.missing)
    then (record { missing = some (sequence, now + 1000) }, [], ok tt)
    else if too_early now f.missing
    then (f, [], ok tt)
    else (record { missing = none }, lost sequence ∷ [], ok tt)

abbrev pub identity_is : Option Identity → Identity → Bool
identity_is none i = false
identity_is (some j) i = identity_eq j i

-- The scan and the identity after it; both may raise.
unfoldable pub roam :
    Result (List Bss) → Result (Option Identity) → Link → Bytes → List Report × Result (Unit {0})
roam scanned again link address =
    elim (scanned >>= λ records. actual_bss records link.target address (private_link link.flags)) [
      | err e ↦ ([], err e)
      | ok selected ↦ elim again [
        | err e ↦ ([], err e)
        | ok i ↦
            if identity_is i (link.target, address)
            then (roamed link.sequence selected ∷ [], ok tt)
            else ([], ok tt)
      ]
    ]

-- The host has an identity.
unfoldable pub follow_host :
    Result (List Bss)
    → Result (Option Identity)
    → Link
    → Identity
    → Follower × List Report × Result (Unit {0})
follow_host scanned again link (ssid, address) =
    if not (bytes_eq ssid link.target) || pinned link.flags && not (bytes_eq address link.address)
    then (record { missing = none }, lost link.sequence ∷ [], ok tt)
    else if bytes_eq address link.address
    then (record { missing = none }, [], ok tt)
    else let (reports, result) = roam scanned again link address in
      (record { missing = none }, reports, result)

-- `current` is the outcome of `identity(state)`, `again` that of the identity after the scan.
unfoldable pub update :
    ℕ
    → Result (Option Identity)
    → Result (List Bss)
    → Result (Option Identity)
    → Link
    → Follower
    → Follower × List Report × Result (Unit {0})
update now current scanned again link f =
    if not (connected link.flags) || busy link.flags
    then (record { missing = none }, [], ok tt)
    else elim current [
      | err e ↦ (f, [], err e)
      | ok none ↦ gap now link.sequence f
      | ok (some i) ↦ follow_host scanned again link i
    ]
