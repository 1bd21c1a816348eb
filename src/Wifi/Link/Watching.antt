-- ===== src/Wifi/Link/Watching.antt =====
-- The watch of the status file (guest/devices/wifi_link.py, `StatusWatch`).
use ashacky.Base.{
  ltb, if◌then◌else◌, is_some, length, drop, any, All, Bytes, Result, ◌>>=◌, outcome, value_error,
  os_error, err, ok, ℕ, zero, suc, ◌+◌, ◌≤◌, ◌≡◌, refl, ap, ◌∙◌, ◌≢◌, Bool, false, not, ◌||◌,
  Option, none, some, List, [], ◌∷◌, ◌++◌, map, arith,
}
use ashacky.Base.Notices.{
  Notice, notice_bytes, notices_bytes, Fits, mask_at, size_at, bit, notice_read,
  length-notices_bytes,
}
use ashacky.Host.Status.{Key}
use ashacky.Wifi.Events.{ValueEq, key_eq}

pub record LinkWatch (F : Type 0) : Type 0 where
  pub descriptor : Option ℕ
  pub seen : Option (Key F)

abbrev pub new_link_watch : {F : Type 0} → LinkWatch F
new_link_watch = record { descriptor = none; seen = none }

-- What the watch of the directory answers: it is added, there is no directory, or another error.
pub data Added : Type 0 where
  added absent failed : Added

-- `open`: the descriptor of a new watch, which may fail, and the watch of the directory. The second
-- component is the descriptor that is closed.
unfoldable pub open_watch :
    {F : Type 0} → Option ℕ → Added → LinkWatch F → LinkWatch F × Option ℕ × Result (Unit {0})
open_watch fd outcome w = elim w.descriptor [
  | some d ↦ (w, none, ok tt)
  | none ↦ elim fd [
    | none ↦ (w, none, err os_error)
    | some d ↦ elim outcome [
      | added ↦ (record w { descriptor = some d }, none, ok tt)
      | absent ↦ (w, some d, ok tt)
      | failed ↦ (w, some d, err os_error)
    ]
  ]
]

-- `mask & 0xCC00`
abbrev pub is_invalid : ℕ → Bool
is_invalid mask = bit 1024 mask || bit 2048 mask || bit 16384 mask || bit 32768 mask

-- The loop over the notices of one read; whether one of them is an overflow or ends the watch.
unfoldable pub read_notices : ℕ → Bytes → Result Bool
read_notices fuel [] = ok false
read_notices zero (b ∷ bs) = err value_error
read_notices (suc fuel) (b ∷ bs) =
    let bytes = b ∷ bs in
    let size = size_at bytes in
    let later = read_notices fuel (drop (16 + size) bytes) in
    if ltb (length bytes) 16
    then err value_error
    else if ltb (length bytes) (16 + size)
    then err value_error
    else later >>= λ rest. ok (is_invalid (mask_at bytes) || rest)

-- The reads until one would block; an empty one says that the watch is closed.
unfoldable pub drain : List Bytes → Result Bool
drain [] = ok false
drain ([] ∷ reads) = err os_error
drain ((b ∷ bs) ∷ reads) = do
  invalid ← read_notices (length (b ∷ bs)) (b ∷ bs)
  more ← drain reads
  ok (invalid || more)

module _ {F : Type 0} (q : ValueEq F) where
  -- the end of `changed`, with what `host_revision` returns
  unfoldable pub note_key : Bool → Option (Key F) → LinkWatch F → LinkWatch F × Result Bool
  note_key invalid key w = (
    record { descriptor = if invalid then none else w.descriptor; seen = key },
    ok (invalid || not (key_eq q key w.seen)),
  )

  abbrev pub after_drain : Result Bool → Option (Key F) → LinkWatch F → LinkWatch F × Result Bool
  after_drain (err e) key w = (w, err e)
  after_drain (ok invalid) key w = note_key invalid key w

  unfoldable pub watch_changed :
      List Bytes → Option (Key F) → LinkWatch F → LinkWatch F × Result Bool
  watch_changed reads key w =
      let drained = drain reads in
      after_drain (if is_some w.descriptor then drained else ok false) key w

read_step :
    (fuel : ℕ) (bytes rest : Bytes) (mask size : ℕ)
    → mask_at bytes ≡ mask
    → size_at bytes ≡ size
    → length bytes ≡ 16 + size + length rest
    → drop (16 + size) bytes ≡ rest
    → read_notices (suc fuel) bytes
      ≡ (read_notices fuel rest >>= λ later. ok (is_invalid mask || later))
unfolding read_notices
read_step fuel [] rest mask size m s l d = absurd (omega arith)
read_step fuel (b ∷ bs) rest mask size m s l d =
    let long : ltb (suc (length bs)) 16 ≡ false = ground arith in
    let fits : ltb (suc (length bs)) (16 + size) ≡ false = ground arith in
    rw (m, s, d, long, fits) refl

-- The notices of a read, whatever they are, are all read: what the loop says of their bytes is whether
-- one of them is an overflow or says that the watch has ended.
pub read_notices-notices_bytes :
    (ns : List Notice) (fuel : ℕ)
    → length ns ≤ fuel
    → All Fits ns
    → read_notices fuel (notices_bytes ns) ≡ ok (any (λ n. is_invalid n.mask) ns)
unfolding read_notices
read_notices-notices_bytes [] fuel h f = refl
read_notices-notices_bytes (n ∷ ns) zero h f = absurd (omega arith)
read_notices-notices_bytes (n ∷ ns) (suc fuel) h f =
    let (mask, size, whole, rest) = notice_read n (notices_bytes ns) f.0 in
    read_step fuel (notice_bytes n ++ notices_bytes ns) (notices_bytes ns) n.mask (length n.name)
      mask size whole rest
    ∙ ap (λ r. r >>= λ later. ok (is_invalid n.mask || later))
        (read_notices-notices_bytes ns fuel (omega arith) f.1)

drain-notices_bytes :
    (batches : List (List Notice))
    → All (λ ns. All Fits ns × (length ns ≢ 0)) batches
    → drain (map notices_bytes batches) ≡ ok (any (any (λ n. is_invalid n.mask)) batches)
unfolding drain
drain-notices_bytes [] f = refl
drain-notices_bytes ([] ∷ batches) f = absurd (f.0.1 refl)
drain-notices_bytes ((n ∷ ns) ∷ batches) f =
    rw
      (
        read_notices-notices_bytes (n ∷ ns) (length (notices_bytes (n ∷ ns)))
            (length-notices_bytes (n ∷ ns)) f.0.0,
        drain-notices_bytes batches f.1,
      )
      refl

-- After a check that did not fail, the key is the one that the status file has now, and the watcher
-- reports a change exactly when a notice is an overflow or ends the watch, which is then closed, or
-- when this key is not the one that it had.
pub watch_changed_lem :
    {F : Type 0} (q : ValueEq F) (batches : List (List Notice)) (key : Option (Key F))
    (w : LinkWatch F) (d : ℕ)
    → w.descriptor ≡ some d
    → All (λ ns. All Fits ns × (length ns ≢ 0)) batches
    → let invalid = any (any (λ n. is_invalid n.mask)) batches in
      watch_changed q (map notices_bytes batches) key w ≡ (
        record { descriptor = if invalid then none else some d; seen = key },
        ok (invalid || not (key_eq q key w.seen)),
      )
unfolding watch_changed note_key
watch_changed_lem q batches key w d e f = rw e (
    ap (λ r. after_drain q r key (record w { descriptor = some d }))
      (drain-notices_bytes batches f))
