-- ===== src/Wifi/Scan/Pages.antt =====
-- The pages of a host scan (guest/devices/wifi_scan.py, `scan`).
use Prim.Native.String.{count}
use ashacky.Base.{
  ltb, leb, ◌==◌, if◌then◌else◌, length, Result, ◌>>=◌, ◌>>◌, raise_if, value_error, err, ok, ℕ,
  zero, suc, ◌+◌, Bool, true, false, not, ◌||◌, Option, none, some, List, [], ◌∷◌, ◌++◌,
}
use ashacky.Base.Int.{pos, negsuc}
use ashacky.Base.Json.{
  Json, Items, Fields, get, item, null, bool, int, float, str, arr, obj, nil, cons, end, field,
}
use ashacky.Wifi.Scan.{Bss, Library, parse_bss}

abbrev pub is_null : {F : Type 0} → Option (Json F) → Bool
is_null none = true
is_null (some null) = true
is_null _ = false

abbrev pub count_entries : {F : Type 0} → Items F → ℕ
count_entries nil = 0
count_entries (cons _ es) = suc (count_entries es)

-- The cursor of a page: none at the end, or the offset of the next page.
unfoldable pub next_offset : {F : Type 0} → ℕ → ℕ → ℕ → Option (Json F) → Result (Option ℕ)
next_offset total expected entries none = if expected == total then ok none else err value_error
next_offset total expected entries (some null) =
    if expected == total then ok none else err value_error
next_offset total expected entries (some (int (pos n))) =
    if not (n == expected) || entries == 0 || leb total n then err value_error else ok (some n)
next_offset total expected entries (some _) = err value_error

-- the records so far, before those of the pages to come
abbrev pub prepend : List Bss → Option (Result (List Bss)) → Option (Result (List Bss))
prepend records none = none
prepend records (some (err e)) = some (err e)
prepend records (some (ok more)) = some (ok (records ++ more))

module _ {F : Type 0} (lib : Library F) where
  -- truth of a value
  unfoldable pub truthy : Option (Json F) → Bool
  truthy none = false
  truthy (some null) = false
  truthy (some (bool b)) = b
  truthy (some (int (pos n))) = not (n == 0)
  truthy (some (int (negsuc _))) = true
  truthy (some (float f)) = lib.nonzero f
  truthy (some (str s)) = ltb 0 (count s)
  truthy (some (arr es)) = ltb 0 (count_entries es)
  truthy (some (obj end)) = false
  truthy (some (obj (field _ _ _))) = true

  unfoldable pub parse_entries : Items F → Result (List Bss)
  parse_entries nil = ok []
  parse_entries (cons e es) = do b ← parse_bss lib e; bs ← parse_entries es; ok (b ∷ bs)

  -- `page['networks']`, a list of at most two
  unfoldable pub networks : Json F → Result (List Bss)
  networks (arr es) = if ltb 2 (count_entries es) then err value_error else parse_entries es
  networks _ = err value_error

  -- One round of the loop: the records of the page and its cursor.
  unfoldable pub read_page : Json F → Json F → ℕ → ℕ → Fields F → Result (List Bss × Option ℕ)
  read_page scan_id total_value total offset page = do
    id ← item "scanID" page
    raise_if (not (lib.same id scan_id)) value_error
    size ← item "total" page
    raise_if (not (lib.same size total_value)) value_error
    entries ← item "networks" page
    records ← networks entries
    next ← next_offset total (offset + length records) (length records) (get "nextOffset" page)
    ok (records, next)

  -- The loop, on fuel: `k` numbers the calls of `rpc`, whose reply is a dict.
  unfoldable pub pages :
      (ℕ → Option (Json F × ℕ) → Result (Fields F))
      → Json F
      → Json F
      → ℕ
      → ℕ
      → ℕ
      → ℕ
      → Fields F
      → Option (Result (List Bss))
  pages rpc scan_id total_value total zero k offset page = none
  pages rpc scan_id total_value total (suc fuel) k offset page =
      elim (read_page scan_id total_value total offset page) [
        | err e ↦ some (err e)
        | ok (records, none) ↦ some (ok records)
        | ok (records, some next) ↦ elim (rpc k (some (scan_id, next))) [
          | err e ↦ some (err e)
          | ok page' ↦ prepend records (pages rpc scan_id total_value total fuel (k + 1) next page')
        ]
      ]

  -- `type(total) is not int or not 0 <= total <= 256 or page.get('truncated')`
  unfoldable pub total_of : Json F → Option (Json F) → Result ℕ
  total_of (int (pos n)) truncated = if ltb 256 n || truthy truncated then err value_error else ok n
  total_of _ truncated = err value_error

  unfoldable pub first_page : Fields F → Result (Json F × Json F × ℕ)
  first_page page = do
    scan_id ← item "scanID" page
    valid ← lib.uuid scan_id
    total_value ← item "total" page
    total ← total_of total_value (get "truncated" page)
    ok (scan_id, total_value, total)

  unfoldable pub scan : (ℕ → Option (Json F × ℕ) → Result (Fields F)) → Option (Result (List Bss))
  scan rpc = elim (rpc 0 none) [
    | err e ↦ some (err e)
    | ok page ↦ elim (first_page page) [
      | err e ↦ some (err e)
      | ok (scan_id, total_value, total) ↦ pages rpc scan_id total_value total (suc total) 1 0 page
    ]
  ]
