-- ===== src/Wifi/Scan/Complete.antt =====
-- A scan ends, and what it returns is complete (guest/devices/wifi_scan.py, `scan`).
use mathlib.Core.Path.{subst}
use ashacky.Base.{
  Option-cases, length, length-append, Result, raise_if, >>=-eq-ok, outcome, value_error, err, ok,
  ℕ, zero, suc, ◌+◌, ◌-◌, ◌≤◌, ◌<◌, ◌≡◌, refl, sym, ap, ◌∙◌, ◌≢◌, inl, inr, false, not, Option,
  none, some, List, ◌++◌, arith,
}
use ashacky.Base.Int.{pos, negsuc}
use ashacky.Base.Json.{Json, Fields, get, item, null, bool, int, float, str, arr, obj}
use ashacky.Wifi.Scan.{Bss, Library}
use ashacky.Wifi.Scan.Pages.{
  next_offset, prepend, truthy, networks, read_page, pages, total_of, first_page, scan,
}

next_offset-none :
    {F : Type 0} (total expected entries : ℕ) (v : Option (Json F))
    → next_offset total expected entries v ≡ ok none
    → expected ≡ total
unfolding next_offset
next_offset-none total expected entries none h = ground arith
next_offset-none total expected entries (some null) h = ground arith
next_offset-none total expected entries (some (int (pos n))) h = ground arith
next_offset-none total expected entries (some (int (negsuc n))) h = ground arith
next_offset-none total expected entries (some (bool b)) h = ground arith
next_offset-none total expected entries (some (float f)) h = ground arith
next_offset-none total expected entries (some (str s)) h = ground arith
next_offset-none total expected entries (some (arr es)) h = ground arith
next_offset-none total expected entries (some (obj fs)) h = ground arith

next_offset-some :
    {F : Type 0} (total expected entries next : ℕ) (v : Option (Json F))
    → next_offset total expected entries v ≡ ok (some next)
    → (next ≡ expected) × (1 ≤ entries) × (next < total)
unfolding next_offset
next_offset-some total expected entries next none h = ground arith
next_offset-some total expected entries next (some null) h = ground arith
next_offset-some total expected entries next (some (int (pos n))) h = ground arith
next_offset-some total expected entries next (some (int (negsuc n))) h = ground arith
next_offset-some total expected entries next (some (bool b)) h = ground arith
next_offset-some total expected entries next (some (float f)) h = ground arith
next_offset-some total expected entries next (some (str s)) h = ground arith
next_offset-some total expected entries next (some (arr es)) h = ground arith
next_offset-some total expected entries next (some (obj fs)) h = ground arith

prepend-none :
    (records : List Bss) (m : Option (Result (List Bss))) → prepend records m ≡ none → m ≡ none
prepend-none records none h = refl
prepend-none records (some (err e)) h = ground arith
prepend-none records (some (ok more)) h = ground arith

prepend-ok :
    (records rs : List Bss) (m : Option (Result (List Bss)))
    → prepend records m ≡ some (ok rs)
    → (more : List Bss) × (m ≡ some (ok more)) × (rs ≡ records ++ more)
prepend-ok records rs none h = ground arith
prepend-ok records rs (some (err e)) h = ground arith
prepend-ok records rs (some (ok more)) h = (more, refl, ground arith)

length-same : (xs ys : List Bss) → xs ≡ ys → length xs ≡ length ys
length-same xs ys e = ap length e

module _ {F : Type 0} (lib : Library F) (scan_id total_value : Json F) (total : ℕ) where
  read_page-next_offset :
      (offset : ℕ) (page : Fields F) (records : List Bss) (next : Option ℕ)
      → read_page lib scan_id total_value total offset page ≡ ok (records, next)
      → next_offset total (offset + length records) (length records) (get "nextOffset" page)
        ≡ ok next
  unfolding read_page
  read_page-next_offset offset page records next h =
      let (id, e₁, h₁) = >>=-eq-ok (item "scanID" page) _ h in
      let (u₁, e₂, h₂) = >>=-eq-ok (raise_if (not (lib.same id scan_id)) value_error) _ h₁ in
      let (size, e₃, h₃) = >>=-eq-ok (item "total" page) _ h₂ in
      let (u₂, e₄, h₄) = >>=-eq-ok (raise_if (not (lib.same size total_value)) value_error) _ h₃ in
      let (entries, e₅, h₅) = >>=-eq-ok (item "networks" page) _ h₄ in
      let (rs, e₆, h₆) = >>=-eq-ok (networks lib entries) _ h₅ in
      let (n, e₇, h₇) =
        >>=-eq-ok (next_offset total (offset + length rs) (length rs) (get "nextOffset" page)) _
          h₆ in
      let same : rs ≡ records = ground arith in
      let same_next : n ≡ next = ground arith in ground arith

  module _ (rpc : ℕ → Option (Json F × ℕ) → Result (Fields F)) where
    -- Each page that is not the last one has a record, and its cursor lies below the total.
    pages-step :
        (fuel k offset next : ℕ) (page page' : Fields F) (records : List Bss)
        → read_page lib scan_id total_value total offset page ≡ ok (records, some next)
        → rpc k (some (scan_id, next)) ≡ ok page'
        → pages lib rpc scan_id total_value total (suc fuel) k offset page
          ≡ prepend records (pages lib rpc scan_id total_value total fuel (k + 1) next page')
    unfolding pages
    pages-step fuel k offset next page page' records e f = rw (pages, e, f)

    pages_end :
        (fuel k offset : ℕ) (page : Fields F)
        → total - offset < fuel
        → pages lib rpc scan_id total_value total fuel k offset page ≡ none
        → ⊥
    unfolding pages
    pages_end zero k offset page le h = omega arith
    pages_end (suc fuel) k offset page le h =
        elim (outcome (read_page lib scan_id total_value total offset page)) [
          | inr (x, e) ↦ ground arith
          | inl ((records, none), e) ↦ ground arith
          | inl ((records, some next), e) ↦
              let found = read_page-next_offset offset page records (some next) e in
              let (n, entry, below) = next_offset-some total _ _ next _ found in
              elim (outcome (rpc k (some (scan_id, next)))) [
                | inr (x, f) ↦ ground arith
                | inl (page', f) ↦ pages_end fuel (k + 1) next page' (omega arith) (
                    prepend-none records _
                      (sym (pages-step fuel k offset next page page' records e f) ∙ h))
              ]
        ]

    -- The records of the pages from an offset on, to the total.
    length-pages :
        (fuel k offset : ℕ) (page : Fields F) (rs : List Bss)
        → pages lib rpc scan_id total_value total fuel k offset page ≡ some (ok rs)
        → offset + length rs ≡ total
    unfolding pages
    length-pages zero k offset page rs h = ground arith
    length-pages (suc fuel) k offset page rs h =
        elim (outcome (read_page lib scan_id total_value total offset page)) [
          | inr (x, e) ↦ ground arith
          | inl ((records, none), e) ↦ ground (
            arith,
            next_offset-none total _ _ _ (read_page-next_offset offset page records none e),
          )
          | inl ((records, some next), e) ↦
              let found = read_page-next_offset offset page records (some next) e in
              let (n, entry, below) = next_offset-some total _ _ next _ found in
              elim (outcome (rpc k (some (scan_id, next)))) [
                | inr (x, f) ↦ ground arith
                | inl (page', f) ↦
                    let (more, g, same) =
                      prepend-ok records rs _
                        (sym (pages-step fuel k offset next page page' records e f) ∙ h) in
                    omega (
                      arith,
                      length-pages fuel (k + 1) next page' more g,
                      length-append records more,
                      length-same rs (records ++ more) same,
                    )
              ]
        ]

module _ {F : Type 0} (lib : Library F) (rpc : ℕ → Option (Json F × ℕ) → Result (Fields F)) where
  total_of_lem :
      (v : Json F) (truncated : Option (Json F)) (n : ℕ)
      → total_of lib v truncated ≡ ok n
      → (v ≡ int (pos n)) × (n ≤ 256) × (truthy lib truncated ≡ false)
  unfolding total_of
  total_of_lem (int (pos m)) truncated n h = ground arith
  total_of_lem (int (negsuc m)) truncated n h = ground arith
  total_of_lem null truncated n h = ground arith
  total_of_lem (bool b) truncated n h = ground arith
  total_of_lem (float f) truncated n h = ground arith
  total_of_lem (str s) truncated n h = ground arith
  total_of_lem (arr es) truncated n h = ground arith
  total_of_lem (obj fs) truncated n h = ground arith

  first_page_lem :
      (page : Fields F) (scan_id total_value : Json F) (n : ℕ)
      → first_page lib page ≡ ok (scan_id, total_value, n)
      → (get "total" page ≡ some (int (pos n))) × (n ≤ 256)
  unfolding first_page item
  first_page_lem page scan_id total_value n h =
      let (id, e₁, h₁) = >>=-eq-ok (item "scanID" page) _ h in
      let (u, e₂, h₂) = >>=-eq-ok (lib.uuid id) _ h₁ in
      let (v, e₃, h₃) = >>=-eq-ok (item "total" page) _ h₂ in
      let (m, e₄, h₄) = >>=-eq-ok (total_of lib v (get "truncated" page)) _ h₃ in
      let (f, le, t) = total_of_lem v (get "truncated" page) m e₄ in
      elim (Option-cases (get "total" page)) [ inl g ↦ ground arith | inr (w, g) ↦ ground arith ]

  -- A scan ends, whatever the host replies: it returns records or raises.
  pub scan_ends : scan lib rpc ≢ none
  unfolding scan
  scan_ends h = elim (outcome (rpc 0 none)) [
    | inr (x, e) ↦ ground arith
    | inl (page, e) ↦ elim (outcome (first_page lib page)) [
      | inr (x, f) ↦ ground arith
      | inl ((scan_id, total_value, total), f) ↦
          pages_end lib scan_id total_value total rpc (suc total) 1 0 page (omega arith)
            (ground arith)
    ]
  ]

  -- What a scan returns is complete: as many records as the total that its first page announced, which
  -- is 256 or less.
  pub scan_complete :
      (rs : List Bss)
      → scan lib rpc ≡ some (ok rs)
      → (page : Fields F) × (rpc 0 none ≡ ok page)
        × (get "total" page ≡ some (int (pos (length rs))))
        × (length rs ≤ 256)
  unfolding scan
  scan_complete rs h = elim (outcome (rpc 0 none)) [
    | inr (x, e) ↦ ground arith
    | inl (page, e) ↦ elim (outcome (first_page lib page)) [
      | inr (x, f) ↦ ground arith
      | inl ((scan_id, total_value, total), f) ↦
          let (g, le) = first_page_lem page scan_id total_value total f in
          let n : length rs ≡ total = omega (
            arith,
            length-pages lib scan_id total_value total rpc (suc total) 1 0 page rs (ground arith),
          ) in
          (page, e, subst (λ m. get "total" page ≡ some (int (pos m))) (sym n) g, omega arith)
    ]
  ]
