-- ===== src/Wifi/Link/Security.antt =====
-- What a private access point that passes has (guest/devices/wifi_link.py, `compatible`).
use ashacky.Base.{
  ltb, ◌==◌, if◌then◌else◌, Bool-cases, Option-cases, length, take, drop, any, Bytes, ℕ, zero, suc,
  ◌+◌, ◌*◌, ◌≡◌, refl, sym, ◌∙◌, inl, inr, Bool, true, false, some, List, [], ◌∷◌, ◌++◌, arith,
}
use ashacky.Wifi.Scan.{Bss}
use ashacky.Wifi.Scan.Elements.{encode, encode-cut}
use ashacky.Wifi.Link.{
  ccmp, psk, wpa_oui, starts_with, security, mem_bytes, capabilities, supported, compatible,
}

-- the values of the elements with a tag
abbrev pub tagged : ℕ → List (ℕ × Bytes) → List Bytes
tagged t [] = []
tagged t ((tag, value) ∷ es) = let rest = tagged t es in if tag == t then value ∷ rest else rest

security-encode :
    (fuel : ℕ) (ies : Bytes) (rsns : List Bytes) (wpa : Bool)
    → security fuel ies ≡ some (rsns, wpa)
    → (es : List (ℕ × Bytes)) × (ies ≡ encode es)
      × (rsns ≡ tagged 48 es)
      × (wpa ≡ any (starts_with wpa_oui) (tagged 221 es))
unfolding security
security-encode fuel [] rsns wpa h = ([], refl, ground arith, ground arith)
security-encode fuel (tag ∷ []) rsns wpa h = ground arith
security-encode zero (tag ∷ size ∷ more) rsns wpa h = ground arith
security-encode (suc fuel) (tag ∷ size ∷ more) rsns wpa h =
    elim (Bool-cases (ltb (length more) size)) [
      | inl short ↦ ground arith
      | inr whole ↦ elim (Option-cases (security fuel (drop size more))) [
        | inl e ↦ ground arith
        | inr ((rs, w), e) ↦
            let (es, f, r, k) = security-encode fuel (drop size more) rs w e in
            (
              (tag, take size more) ∷ es,
              encode-cut tag size more es whole f,
              ground arith,
              ground arith,
            )
      ]
    ]

-- Lists of suites: a count of two bytes, and that many suites of four.
abbrev pub concat : List Bytes → Bytes
concat [] = []
concat (s ∷ ss) = s ++ concat ss

abbrev pub HasSuites : Bytes → Bytes → Bytes → Type 0
HasSuites required value rest =
    (lo hi : ℕ) × (suites : List Bytes) × (value ≡ lo ∷ hi ∷ concat suites ++ rest)
    × (length suites ≡ lo + 256 * hi)
    × (mem_bytes required suites ≡ true)

-- An RSN element: version 1 and the group cipher CCMP, CCMP among the pairwise ciphers, PSK among the
-- key managements, and no requirement of protected management frames.
abbrev pub IsRsn : Bytes → Type 0
IsRsn value =
    (middle rest : Bytes) × (take 2 value ≡ 1 ∷ 0 ∷ [])
    × (take 4 (drop 2 value) ≡ ccmp)
    × HasSuites ccmp (drop 6 value) middle
    × HasSuites psk middle rest
    × (capabilities rest ≡ true)

supported-open :
    (is_open wpa : Bool) (rsns : List Bytes)
    → supported false is_open (some (rsns, wpa)) ≡ true
    → (is_open ≡ true) × (rsns ≡ []) × (wpa ≡ false)
unfolding supported
supported-open is_open wpa [] h = ground arith
supported-open is_open wpa (value ∷ rsns) h = ground arith

-- A record that passes as an open network is open, its elements are whole, and none of them is an RSN
-- or a WPA element.
compatible-open_network :
    (r : Bss)
    → compatible r false ≡ true
    → (es : List (ℕ × Bytes)) × (r.open_network ≡ true)
      × (r.information_elements ≡ encode es)
      × (tagged 48 es ≡ [])
      × (any (starts_with wpa_oui) (tagged 221 es) ≡ false)
unfolding compatible supported
compatible-open_network r h =
    elim (Option-cases (security (length r.information_elements) r.information_elements)) [
      | inl e ↦ ground arith
      | inr ((rsns, wpa), e) ↦
          let (es, f, g, k) =
            security-encode (length r.information_elements) r.information_elements rsns wpa e in
          let (is_open, none_rsn, none_wpa) =
            supported-open r.open_network wpa rsns (ground arith) in
          (es, is_open, f, sym g ∙ none_rsn, sym k ∙ none_wpa)
    ]
