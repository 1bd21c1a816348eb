-- ===== src/Wifi/Bridge/Chosen.antt =====
-- The network that a connection request selects (guest/devices/wifi_bridge.py, `handle_connection`).
use mathlib.Core.List.{Mem}
use mathlib.Core.Path.{subst}
use ashacky.Base.{
  Bool-cases, filter, All, bytes_eq, bytes_eq_sound, All-Mem, filter-All, ok, ◌≡◌, refl, ◌⊎◌, inl,
  inr, true, ◌||◌, List, [], ◌∷◌, arith,
}
use ashacky.Base.Int.{◌≤ℤ◌, ltb_ℤ}
use ashacky.Wifi.Scan.{Bss}
use ashacky.Wifi.Link.{compatible}
use ashacky.Wifi.Bridge.{
  Connection, target_of, has_key, any_address, candidate, strongest, strongest_of, choose,
}

strongest-All {κ} :
    (P : Bss → Type κ) (best : Bss) (rs : List Bss) → P best → All P rs → P (strongest best rs)
unfolding strongest
strongest-All P best [] b h = b
strongest-All P best (r ∷ rs) b h = elim (Bool-cases (ltb_ℤ best.signal_mbm r.signal_mbm)) [
  | inl y ↦ rw y (strongest-All P r rs h.0 h.1)
  | inr n ↦ rw n (strongest-All P best rs b h.1)
]

abbrev pub NoStronger : Bss → List Bss → Type 0
NoStronger s rs = All (λ r. r.signal_mbm ≤ℤ s.signal_mbm) rs

strongest-least :
    (best : Bss) (rs : List Bss) (s : Bss)
    → s ≡ strongest best rs
    → (best.signal_mbm ≤ℤ s.signal_mbm) × NoStronger s rs
unfolding strongest
strongest-least best [] s e = ground arith
strongest-least best (r ∷ rs) s e = elim (Bool-cases (ltb_ℤ best.signal_mbm r.signal_mbm)) [
  | inl y ↦ let (l, h) = strongest-least r rs s (ground arith) in (ground arith, (l, h))
  | inr n ↦ let (l, h) = strongest-least best rs s (ground arith) in (l, (ground arith, h))
]

strongest_of-ok :
    (xs : List Bss) (s : Bss)
    → strongest_of xs ≡ ok s
    → (b : Bss) × (rs : List Bss) × (xs ≡ b ∷ rs) × (s ≡ strongest b rs)
strongest_of-ok [] s h = ground arith
strongest_of-ok (b ∷ rs) s h = (b, rs, refl, ground arith)

strongest_of-All {κ} :
    (P : Bss → Type κ) (xs : List Bss) (s : Bss) → strongest_of xs ≡ ok s → All P xs → P s
strongest_of-All P [] s h a = ground arith
strongest_of-All P (b ∷ rs) s h a =
    let e : strongest b rs ≡ s = ground arith in subst P e (strongest-All P b rs a.0 a.1)

strongest_of-NoStronger : (xs : List Bss) (s : Bss) → strongest_of xs ≡ ok s → NoStronger s xs
strongest_of-NoStronger [] s h = tt
strongest_of-NoStronger (b ∷ rs) s h = strongest-least b rs s (ground arith)

-- The network that is selected is one of the scan, has the SSID that the kernel asked for and the address,
-- where it asked for one, is supported with a key or without, as the request has one, and no other
-- such network of the scan has a stronger signal.
pub choose_lem :
    (c : Connection) (records : List Bss) (s : Bss)
    → choose c records ≡ ok s
    → Mem s records
      × (s.ssid ≡ target_of c)
      × ((any_address c ≡ true) ⊎ (s.bssid ≡ c.bssid))
      × (compatible s (has_key c) ≡ true)
      × NoStronger s (filter (candidate c) records)
unfolding choose candidate
choose_lem c records s h =
    let (m, p) = strongest_of-All _ _ s h (filter-All _ (candidate c) records (All-Mem records)) in
    let addressed : (any_address c || bytes_eq s.bssid c.bssid) ≡ true = ground arith in
    (
      m,
      bytes_eq_sound s.ssid (target_of c) (ground arith),
      elim (Bool-cases (any_address c)) [
        | inl y ↦ inl y
        | inr n ↦ inr (bytes_eq_sound s.bssid c.bssid (ground arith))
      ],
      ground arith,
      strongest_of-NoStronger _ s h,
    )
