-- ===== src/Wifi/Scan/Elements.antt =====
-- The information elements of a record are whole, and carry its SSID once
-- (guest/devices/wifi_scan.py, `parse_bss`).
use ashacky.Base.{
  ltb, ◌==◌, if◌then◌else◌, Bool-cases, length, take, drop, length-append, length-take, take-append,
  drop-append, take-append-drop, Bytes, bytes_eq, bytes_eq_sound, bytes_eq_refl, outcome, ok, ℕ,
  zero, suc, ◌≤◌, ◌≡◌, refl, sym, ap, ◌∙◌, inl, inr, Bool, true, false, not, ◌&&◌, ◌||◌, List, [],
  ◌∷◌, ◌++◌, arith,
}
use ashacky.Wifi.Scan.{walk, complete_elements}

-- Elements, a tag and a value each, as bytes; and the values of the elements with tag 0.
abbrev pub encode : List (ℕ × Bytes) → Bytes
encode [] = []
encode ((tag, value) ∷ es) = tag ∷ length value ∷ value ++ encode es

abbrev pub ssids : List (ℕ × Bytes) → List Bytes
ssids [] = []
ssids ((tag, value) ∷ es) = let rest = ssids es in if tag == 0 then value ∷ rest else rest

-- What the walk found: the SSID, if this is where `seen` was set.
abbrev pub found : Bool → Bool → Bytes → List Bytes
found false true ssid = ssid ∷ []
found _ _ ssid = []

leb_size : (more : Bytes) (size : ℕ) → ltb (length more) size ≡ false → size ≤ length more
leb_size more size h = ground arith

found-none : (seen : Bool) (ssid : Bytes) → found seen seen ssid ≡ []
found-none true ssid = refl
found-none false ssid = refl

-- An element cut off at its size, before what the rest of the walk reads.
pub encode-cut :
    (tag size : ℕ) (more : Bytes) (es : List (ℕ × Bytes))
    → ltb (length more) size ≡ false
    → drop size more ≡ encode es
    → tag ∷ size ∷ more ≡ encode ((tag, take size more) ∷ es)
encode-cut tag size more es fits e =
    let whole : take size more ++ encode es ≡ more =
      ap (λ d. take size more ++ d) (sym e) ∙ take-append-drop size more in
    let same : length (take size more) ≡ size =
      omega (arith, length-take size more, leb_size more size fits) in
    ap (λ b. tag ∷ size ∷ b) (sym whole)
    ∙ ap (λ n. tag ∷ n ∷ take size more ++ encode es) (sym same)

-- One element, before or after the SSID was seen.
ssids-step :
    (tag : ℕ) (value ssid : Bytes) (seen seen' : Bool) (es : List (ℕ × Bytes))
    → (tag == 0 && (seen || not (bytes_eq value ssid))) ≡ false
    → ssids es ≡ found (seen || tag == 0) seen' ssid
    → ((seen || tag == 0) ≡ true → seen' ≡ true)
    → (ssids ((tag, value) ∷ es) ≡ found seen seen' ssid) × (seen ≡ true → seen' ≡ true)
ssids-step tag value ssid true seen' es h s k = ground arith
ssids-step tag value ssid false seen' es h s k = elim (Bool-cases (tag == 0)) [
  | inl z ↦ ground (arith, bytes_eq_sound value ssid)
  | inr n ↦ ground arith
]

walk_sound :
    (fuel : ℕ) (ssid : Bytes) (seen seen' : Bool) (rest : Bytes)
    → walk fuel ssid seen rest ≡ ok seen'
    → (es : List (ℕ × Bytes)) × (rest ≡ encode es)
      × (ssids es ≡ found seen seen' ssid)
      × (seen ≡ true → seen' ≡ true)
unfolding walk
walk_sound fuel ssid seen seen' [] h =
    let same : seen ≡ seen' = ground arith in
    ([], refl, ground (arith, found-none seen ssid), ground arith)
walk_sound fuel ssid seen seen' (tag ∷ []) h = ground arith
walk_sound zero ssid seen seen' (tag ∷ size ∷ more) h = ground arith
walk_sound (suc fuel) ssid seen seen' (tag ∷ size ∷ more) h =
    let clash = tag == 0 && (seen || not (bytes_eq (take size more) ssid)) in
    elim (Bool-cases (ltb (length more) size || clash)) [
      | inl bad ↦ ground arith
      | inr good ↦
          let (es, e, s, k) =
            walk_sound fuel ssid (seen || tag == 0) seen' (drop size more) (ground arith) in
          let (s', k') = ssids-step tag (take size more) ssid seen seen' es (ground arith) s k in
          ((tag, take size more) ∷ es, encode-cut tag size more es (ground arith) e, s', k')
    ]

-- Whatever bytes the host sends: when they pass, the elements of the record are whole, and exactly one
-- of them has tag 0, with the record's SSID as its value.
pub complete_elements-encode :
    (ssid ies out : Bytes)
    → complete_elements ssid ies ≡ ok out
    → (es : List (ℕ × Bytes)) × (out ≡ encode es) × (ssids es ≡ ssid ∷ [])
unfolding complete_elements
complete_elements-encode ssid ies out h = elim (outcome (walk (length ies) ssid false ies)) [
  | inr (x, e) ↦ ground arith
  | inl (seen, e) ↦
      let (es, f, s, k) = walk_sound (length ies) ssid false seen ies e in
      elim (Bool-cases seen) [
        | inl y ↦ (es, ground arith, ground arith)
        | inr n ↦ ((0, ssid) ∷ es, ground arith, ground arith)
      ]
]

ssids-unstep :
    (tag : ℕ) (value ssid : Bytes) (seen seen' : Bool) (es : List (ℕ × Bytes))
    → ssids ((tag, value) ∷ es) ≡ found seen seen' ssid
    → (seen ≡ true → seen' ≡ true)
    → ((tag == 0 && (seen || not (bytes_eq value ssid))) ≡ false)
      × (ssids es ≡ found (seen || tag == 0) seen' ssid)
      × ((seen || tag == 0) ≡ true → seen' ≡ true)
ssids-unstep tag value ssid seen seen' es s k = elim (Bool-cases (tag == 0)) [
  | inl z ↦ elim (Bool-cases seen) [
    | inl y ↦ ground arith
    | inr n ↦ elim (Bool-cases seen') [
      | inl y ↦ ground (arith, bytes_eq_refl ssid)
      | inr m ↦ ground arith
    ]
  ]
  | inr n ↦ ground arith
]

whole_value : (value more : Bytes) → ltb (length (value ++ more)) (length value) ≡ false
whole_value value more = ground (arith, length-append value more)

walk-encode :
    (fuel : ℕ) (ssid : Bytes) (seen seen' : Bool) (es : List (ℕ × Bytes))
    → length (encode es) ≤ fuel
    → ssids es ≡ found seen seen' ssid
    → (seen ≡ true → seen' ≡ true)
    → walk fuel ssid seen (encode es) ≡ ok seen'
unfolding walk
walk-encode fuel ssid seen seen' [] le s k = elim (Bool-cases seen) [
  | inl y ↦ ground arith
  | inr n ↦ elim (Bool-cases seen') [ inl y ↦ ground arith | inr m ↦ ground arith ]
]
walk-encode zero ssid seen seen' ((tag, value) ∷ es) le s k = absurd (omega arith)
walk-encode (suc fuel) ssid seen seen' ((tag, value) ∷ es) le s k =
    let (fine, s', k') = ssids-unstep tag value ssid seen seen' es s k in
    let later =
      walk-encode fuel ssid (seen || tag == 0) seen' es
        (omega (arith, length-append value (encode es))) s' k' in
    rw (
      drop-append value (encode es),
      take-append (length value) value (encode es) refl,
      whole_value value (encode es),
      fine,
      later,
    )

-- Elements that carry the record's SSID once, in at most 4096 bytes, pass as they are.
encode-complete_elements :
    (ssid : Bytes) (es : List (ℕ × Bytes))
    → length (encode es) ≤ 4096
    → ssids es ≡ ssid ∷ []
    → complete_elements ssid (encode es) ≡ ok (encode es)
unfolding complete_elements
encode-complete_elements ssid es le s =
    ground (
      arith,
      walk-encode (length (encode es)) ssid false true es (omega arith) s (λ h. ground arith),
    )
