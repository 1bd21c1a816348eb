-- ===== src/Battery/Watching.antt =====
-- The watch of the status directory (guest/drivers/battery/feed.py, `StatusWatch`).
use ashacky.Base.{
  ltb, ◌==◌, if◌then◌else◌, Bool-cases, length, take, drop, take-append, any, All, Bytes, bytes_eq,
  Result, ◌>>=◌, os_error, err, ok, ℕ, zero, suc, ◌+◌, ◌≤◌, ◌≡◌, refl, ap, ◌∙◌, inl, inr, Bool,
  true, false, ◌||◌, List, [], ◌∷◌, ◌++◌, arith,
}
use ashacky.Base.Notices.{
  Notice, notice_bytes, notices_bytes, Fits, mask_at, size_at, bit, notice_read,
  length-notices_bytes,
}

-- `split(b'\0', 1)[0]`: what comes before the first zero
abbrev pub until_zero : Bytes → Bytes
until_zero [] = []
until_zero (b ∷ bs) = let rest = until_zero bs in if b == 0 then [] else b ∷ rest

-- `mask & 0x8C00`
abbrev pub is_replaced : ℕ → Bool
is_replaced mask = bit 1024 mask || bit 2048 mask || bit 32768 mask

-- what one notice says, and what the loop says of those after it
unfoldable pub note_name : Bytes → ℕ → Bytes → Result Bool → Result Bool
note_name watched mask name later =
    if is_replaced mask
    then err os_error
    else later >>= λ changed. ok ((bytes_eq (until_zero name) watched || bit 16384 mask) || changed)

-- The loop over the notices of the read.
unfoldable pub changed_notices : Bytes → ℕ → Bytes → Result Bool
changed_notices watched zero bytes = ok false
changed_notices watched (suc fuel) bytes =
    let size = size_at bytes in
    let later = changed_notices watched fuel (drop (16 + size) bytes) in
    if ltb (length bytes) 16
    then ok false
    else note_name watched (mask_at bytes) (take size (drop 16 bytes)) later

-- `wait`, from whether the watch is ready before the timeout, and what is read then
unfoldable pub wait_changed : Bytes → Bool → Bytes → Result Bool
wait_changed watched false bytes = ok false
wait_changed watched true bytes = changed_notices watched (suc (length bytes)) bytes

-- What a list of notices means: an error when the directory is replaced, before which nothing counts;
-- or whether one of them is of the watched name, padded with zeros, or an overflow.
abbrev pub meaning : Bytes → List Notice → Result Bool
meaning watched ns =
    if any (λ n. is_replaced n.mask) ns
    then err os_error
    else ok (any (λ n. bytes_eq (until_zero n.name) watched || bit 16384 n.mask) ns)

read_step :
    (watched : Bytes) (fuel : ℕ) (bytes rest : Bytes) (mask size : ℕ)
    → mask_at bytes ≡ mask
    → size_at bytes ≡ size
    → length bytes ≡ 16 + size + length rest
    → drop (16 + size) bytes ≡ rest
    → changed_notices watched (suc fuel) bytes
      ≡ note_name watched mask (take size (drop 16 bytes)) (changed_notices watched fuel rest)
unfolding changed_notices
read_step watched fuel bytes rest mask size m s l d =
    let long : ltb (length bytes) 16 ≡ false = ground arith in rw (m, s, d, long) refl

note_name-meaning :
    (watched : Bytes) (n : Notice) (ns : List Notice)
    → note_name watched n.mask n.name (meaning watched ns) ≡ meaning watched (n ∷ ns)
unfolding note_name
note_name-meaning watched n ns = elim (Bool-cases (is_replaced n.mask)) [
  | inl gone ↦ rw gone refl
  | inr there ↦ elim (Bool-cases (any (λ n'. is_replaced n'.mask) ns)) [
    | inl later ↦ rw (there, later) refl
    | inr never ↦ rw (there, never) refl
  ]
]

changed_notices_lem :
    (watched : Bytes) (ns : List Notice) (fuel : ℕ)
    → length ns + 1 ≤ fuel
    → All Fits ns
    → changed_notices watched fuel (notices_bytes ns) ≡ meaning watched ns
unfolding changed_notices
changed_notices_lem watched ns zero h f = absurd (omega arith)
changed_notices_lem watched [] (suc fuel) h f = refl
changed_notices_lem watched (n ∷ ns) (suc fuel) h f =
    let (mask, size, whole, rest) = notice_read n (notices_bytes ns) f.0 in
    let name : take (length n.name) (n.name ++ notices_bytes ns) ≡ n.name =
      take-append (length n.name) n.name (notices_bytes ns) refl in
    read_step watched fuel (notice_bytes n ++ notices_bytes ns) (notices_bytes ns) n.mask
      (length n.name) mask size whole rest
    ∙ ap
        (λ later.
          note_name watched n.mask (take (length n.name) (n.name ++ notices_bytes ns)) later)
        (changed_notices_lem watched ns fuel (omega arith) f.1)
    ∙ ap (λ m. note_name watched n.mask m (meaning watched ns)) name
    ∙ note_name-meaning watched n ns

-- A wait that reads the bytes of notices, whatever they are, means what the notices mean: it raises when one
-- of them says that the directory is replaced, and otherwise says whether one of them is of the
-- watched name or an overflow.
pub wait_changed-notices_bytes :
    (watched : Bytes) (ns : List Notice)
    → All Fits ns
    → wait_changed watched true (notices_bytes ns) ≡ meaning watched ns
unfolding wait_changed
wait_changed-notices_bytes watched ns f =
    changed_notices_lem watched ns (suc (length (notices_bytes ns)))
      (omega (arith, length-notices_bytes ns)) f
