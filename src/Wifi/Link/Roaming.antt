-- ===== src/Wifi/Link/Roaming.antt =====
-- What the follower reports (guest/devices/wifi_link.py, `LinkFollower.update`).
use mathlib.Core.Path.{subst}
use ashacky.Base.{
  ltb, ◌==◌, Bool-cases, Option-cases, filter, Bytes, bytes_eq, bytes_eq_sound, Result, outcome,
  err, ok, ℕ, ◌+◌, ◌≤◌, ◌≡◌, ap, ◌∙◌, ◌≢◌, ◌⊎◌, inl, inr, Bool, true, false, not, ◌&&◌, ◌||◌,
  Option, none, some, List, [], ◌∷◌, arith,
}
use ashacky.Wifi.Scan.{Bss}
use ashacky.Wifi.Link.{compatible, Identity, only, actual_bss}
use ashacky.Wifi.Link.Follower.{
  Follower, Link, connected, private_link, pinned, busy, waits_on, too_early, gap, identity_is,
  roam, follow_host, update, lost, roamed,
}

-- A report of no loss and no roam is none.
gap-lost :
    (now sequence s : ℕ) (f : Follower)
    → (gap now sequence f).1 ≡ lost s ∷ []
    → (s ≡ sequence) × ((deadline : ℕ) × (f.missing ≡ some (s, deadline)) × (deadline ≤ now))
unfolding gap
gap-lost now sequence s f h = elim (Option-cases f.missing) [
  | inl e ↦ ground arith
  | inr ((t, deadline), e) ↦ elim (Bool-cases (t == sequence)) [
    | inr other ↦ ground arith
    | inl same ↦ elim (Bool-cases (ltb now deadline)) [
      | inl early ↦ ground arith
      | inr late ↦ (ground arith, (deadline, ground arith, ground arith))
    ]
  ]
]

gap-not_roamed :
    (now sequence s : ℕ) (b : Bss) (f : Follower) → (gap now sequence f).1 ≢ roamed s b ∷ []
unfolding gap
gap-not_roamed now sequence s b f h = ground arith

filter-head :
    (p : Bss → Bool) (xs : List Bss) (r : Bss) (rs : List Bss) → filter p xs ≡ r ∷ rs → p r ≡ true
filter-head p [] r rs h = ground arith
filter-head p (x ∷ xs) r rs h = elim (Bool-cases (p x)) [
  | inl y ↦ ground arith
  | inr n ↦ filter-head p xs r rs (ground arith)
]

only-ok : (xs : List Bss) (r : Bss) → only xs ≡ ok r → xs ≡ r ∷ []
only-ok [] r h = ground arith
only-ok (x ∷ []) r h = ground arith
only-ok (x ∷ y ∷ xs) r h = ground arith

pub actual_bss-compatible :
    (records : List Bss) (target address : Bytes) (private : Bool) (r : Bss)
    → actual_bss records target address private ≡ ok r
    → (r.ssid ≡ target) × (r.bssid ≡ address) × (compatible r private ≡ true)
unfolding actual_bss
actual_bss-compatible records target address private r h =
    let passes =
      filter-head (λ b. bytes_eq b.ssid target && bytes_eq b.bssid address && compatible b private)
        records r [] (only-ok _ r h) in
    (
      bytes_eq_sound r.ssid target (ground arith),
      bytes_eq_sound r.bssid address (ground arith),
      ground arith,
    )

pub identity_is_sound :
    (o : Option Identity) (s a : Bytes) → identity_is o (s, a) ≡ true → o ≡ some (s, a)
identity_is_sound none s a h = ground arith
identity_is_sound (some (t, b)) s a h = ground (arith, bytes_eq_sound t s, bytes_eq_sound b a)

roam-roamed :
    (scanned : Result (List Bss)) (again : Result (Option Identity)) (link : Link) (address : Bytes)
    (s : ℕ) (b : Bss)
    → (roam scanned again link address).0 ≡ roamed s b ∷ []
    → (s ≡ link.sequence)
      × (b.ssid ≡ link.target)
      × (b.bssid ≡ address)
      × (compatible b (private_link link.flags) ≡ true)
      × (again ≡ ok (some (link.target, address)))
unfolding roam
roam-roamed (err e) again link address s b h = ground arith
roam-roamed (ok records) again link address s b h =
    elim (outcome (actual_bss records link.target address (private_link link.flags))) [
      | inr (x, e) ↦ ground arith
      | inl (selected, e) ↦
          let (ssid, bssid, fits) =
            actual_bss-compatible records link.target address _ selected e in
          elim (outcome again) [
            | inr (x, g) ↦ ground arith
            | inl (i, g) ↦ elim (Bool-cases (identity_is i (link.target, address))) [
              | inr n ↦ ground arith
              | inl y ↦ ground (arith, identity_is_sound i link.target address y)
            ]
          ]
    ]

follow_host-roamed :
    (scanned : Result (List Bss)) (again : Result (Option Identity)) (link : Link) (i : Identity)
    (s : ℕ) (b : Bss)
    → (follow_host scanned again link i).1 ≡ roamed s b ∷ []
    → (i ≡ (link.target, b.bssid))
      × (pinned link.flags ≡ false)
      × (bytes_eq b.bssid link.address ≡ false)
      × ((roam scanned again link b.bssid).0 ≡ roamed s b ∷ [])
unfolding follow_host
follow_host-roamed scanned again link (ssid, address) s b h =
    elim (Bool-cases (
      not (bytes_eq ssid link.target)
      || pinned link.flags && not (bytes_eq address link.address))) [
        | inl gone ↦ ground arith
        | inr fine ↦ elim (Bool-cases (bytes_eq address link.address)) [
          | inl same ↦ ground arith
          | inr other ↦
              let r : (roam scanned again link address).0 ≡ roamed s b ∷ [] = ground arith in
              let (e, f, g, k, l) = roam-roamed scanned again link address s b r in
              ground (arith, bytes_eq_sound ssid link.target)
        ]
      ]

-- What it means to have a reason to report a roam to `b` on a link: the link is up, idle and not
-- pinned to an address; the host had, before and after the scan, the identity of the link's network
-- at the address of `b`, which is not the link's; and `b` is of that network and supported.
abbrev pub Roams : Result (Option Identity) → Result (Option Identity) → Link → Bss → Type 0
Roams current again link b =
    (connected link.flags ≡ true)
    × (busy link.flags ≡ false)
    × (pinned link.flags ≡ false)
    × (current ≡ ok (some (link.target, b.bssid)))
    × (again ≡ ok (some (link.target, b.bssid)))
    × (bytes_eq b.bssid link.address ≡ false)
    × (b.ssid ≡ link.target)
    × (compatible b (private_link link.flags) ≡ true)

-- A roam is only reported with its sequence, to a supported access point of the link's own network, at
-- the address where the host is, as its identity said before the scan and again after it, and which is
-- not the link's; the link is connected, not busy and not pinned to an address.
pub update-Roams :
    (now : ℕ) (current : Result (Option Identity)) (scanned : Result (List Bss))
    (again : Result (Option Identity)) (link : Link) (f : Follower) (s : ℕ) (b : Bss)
    → (update now current scanned again link f).1 ≡ roamed s b ∷ []
    → (s ≡ link.sequence) × Roams current again link b
unfolding update
update-Roams now current scanned again link f s b h =
    elim (Bool-cases (not (connected link.flags) || busy link.flags)) [
      | inl idle ↦ ground arith
      | inr up ↦ elim (outcome current) [
        | inr (x, e) ↦ ground arith
        | inl (none, e) ↦ ground (arith, gap-not_roamed now link.sequence s b f)
        | inl (some i, e) ↦
            let r : (follow_host scanned again link i).1 ≡ roamed s b ∷ [] = ground arith in
            let (same, free, other, r') = follow_host-roamed scanned again link i s b r in
            let (sequence, ssid, bssid, fits, confirmed) =
              roam-roamed scanned again link b.bssid s b r' in
            (
              sequence,
              (
                ground arith,
                ground arith,
                free,
                e ∙ ap (λ j. ok (some j)) same,
                confirmed,
                other,
                ssid,
                fits,
              ),
            )
      ]
    ]

-- The reasons for a loss: no identity, and a deadline for this sequence that has passed; or the host is on another network, or off the address the link is pinned to.
abbrev pub Loses : ℕ → Result (Option Identity) → Link → Follower → Type 0
Loses now current link f =
    ((current ≡ ok none)
      × (deadline : ℕ) × (f.missing ≡ some (link.sequence, deadline))
      × (deadline ≤ now))
    ⊎ ((i : Identity) × (current ≡ ok (some i))
        × ((not (bytes_eq i.0 link.target) || pinned link.flags && not (bytes_eq i.1 link.address))
            ≡ true))

roam-not_lost :
    (scanned : Result (List Bss)) (again : Result (Option Identity)) (link : Link) (address : Bytes)
    (s : ℕ)
    → (roam scanned again link address).0 ≢ lost s ∷ []
unfolding roam
roam-not_lost (err e) again link address s h = ground arith
roam-not_lost (ok records) again link address s h =
    elim (outcome (actual_bss records link.target address (private_link link.flags))) [
      | inr (x, e) ↦ ground arith
      | inl (selected, e) ↦ elim (outcome again) [
        | inr (x, g) ↦ ground arith
        | inl (i, g) ↦ ground arith
      ]
    ]

follow_host-lost :
    (scanned : Result (List Bss)) (again : Result (Option Identity)) (link : Link) (i : Identity)
    (s : ℕ)
    → (follow_host scanned again link i).1 ≡ lost s ∷ []
    → (s ≡ link.sequence)
      × ((not (bytes_eq i.0 link.target) || pinned link.flags && not (bytes_eq i.1 link.address))
          ≡ true)
unfolding follow_host
follow_host-lost scanned again link (ssid, address) s h =
    elim (Bool-cases (
      not (bytes_eq ssid link.target)
      || pinned link.flags && not (bytes_eq address link.address))) [
        | inl gone ↦ ground arith
        | inr fine ↦ elim (Bool-cases (bytes_eq address link.address)) [
          | inl same ↦ ground arith
          | inr other ↦ ground (arith, roam-not_lost scanned again link address s)
        ]
      ]

-- A loss is only reported with its sequence, on a connected link that is not busy, and for a reason: the
-- host has no identity, and `missing` holds this sequence and a deadline that has passed; or the
-- host is on another network, or off the address that the link is pinned to.
pub update-Loses :
    (now : ℕ) (current : Result (Option Identity)) (scanned : Result (List Bss))
    (again : Result (Option Identity)) (link : Link) (f : Follower) (s : ℕ)
    → (update now current scanned again link f).1 ≡ lost s ∷ []
    → (s ≡ link.sequence)
      × (connected link.flags ≡ true)
      × (busy link.flags ≡ false)
      × Loses now current link f
unfolding update
update-Loses now current scanned again link f s h =
    elim (Bool-cases (not (connected link.flags) || busy link.flags)) [
      | inl idle ↦ ground arith
      | inr up ↦ elim (outcome current) [
        | inr (x, e) ↦ ground arith
        | inl (none, e) ↦
            let (same, (deadline, g, le)) = gap-lost now link.sequence s f (ground arith) in
            (
              same,
              ground arith,
              ground arith,
              inl (e, deadline, subst (λ n. f.missing ≡ some (n, deadline)) same g, le),
            )
        | inl (some i, e) ↦
            let (same, gone) = follow_host-lost scanned again link i s (ground arith) in
            (same, ground arith, ground arith, inr (i, e, gone))
      ]
    ]

missing-follow_host :
    (scanned : Result (List Bss)) (again : Result (Option Identity)) (link : Link) (i : Identity)
    (s deadline : ℕ)
    → (follow_host scanned again link i).0.missing ≡ some (s, deadline)
    → ⊥
unfolding follow_host
missing-follow_host scanned again link (ssid, address) s deadline h =
    elim (Bool-cases (
      not (bytes_eq ssid link.target)
      || pinned link.flags && not (bytes_eq address link.address))) [
        | inl gone ↦ ground arith
        | inr fine ↦ elim (Bool-cases (bytes_eq address link.address)) [
          | inl same ↦ ground arith
          | inr other ↦ ground arith
        ]
      ]

-- What an update leaves in `missing` was there before, or is the start of a gap: this link's sequence,
-- without an identity, and a deadline a second from now.
update-missing :
    (now : ℕ) (current : Result (Option Identity)) (scanned : Result (List Bss))
    (again : Result (Option Identity)) (link : Link) (f : Follower) (s deadline : ℕ)
    → (update now current scanned again link f).0.missing ≡ some (s, deadline)
    → (f.missing ≡ some (s, deadline))
      ⊎ ((s ≡ link.sequence) × (deadline ≡ now + 1000) × (current ≡ ok none))
unfolding update gap follow_host
update-missing now current scanned again link f s deadline h =
    elim (Bool-cases (not (connected link.flags) || busy link.flags)) [
      | inl idle ↦ ground arith
      | inr up ↦ elim (outcome current) [
        | inr (x, e) ↦ inl (ground arith)
        | inl (none, e) ↦ elim (Bool-cases (waits_on link.sequence f.missing)) [
          | inr fresh ↦ inr (ground arith)
          | inl same ↦ elim (Bool-cases (too_early now f.missing)) [
            | inl early ↦ inl (ground arith)
            | inr late ↦ ground arith
          ]
        ]
        | inl ((some (ssid, address)), e) ↦
            absurd
              (missing-follow_host scanned again link (ssid, address) s deadline (ground arith))
      ]
    ]
