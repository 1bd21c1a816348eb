-- ===== src/Base/Notices.antt =====
-- The notices of the kernel about a watched directory, as its bytes have them: both watches of the
-- status file (guest/devices/wifi_link.py and guest/drivers/battery/feed.py, `StatusWatch`) read them.
use ashacky.Base.{
  ◌==◌, length, take, drop, length-append, Bytes, ℕ, zero, suc, ◌+◌, ◌/◌, ◌%◌, ◌≤◌, ◌<◌, ◌≡◌, ap,
  ◌∙◌, Bool, List, [], ◌∷◌, ◌++◌, arith,
}
use ashacky.Base.Packing.{little, unpack_little, unpack_little-little}

pub record Notice : Type 0 where
  pub descriptor : ℕ
  pub mask : ℕ
  pub cookie : ℕ
  pub name : Bytes

-- the bytes of a notice, as the kernel lays them out: `iIII`, and the name
abbrev pub notice_bytes : Notice → Bytes
notice_bytes n =
    little 4 n.descriptor
    ++ little 4 n.mask
    ++ little 4 n.cookie
    ++ little 4 (length n.name)
    ++ n.name

abbrev pub notices_bytes : List Notice → Bytes
notices_bytes [] = []
notices_bytes (n ∷ ns) = notice_bytes n ++ notices_bytes ns

-- a mask and a size that four bytes hold
abbrev pub Fits : Notice → Type 0
Fits n = (n.mask < 4294967296) × (length n.name < 4294967296)

-- the fields that both read, at the offset 4 and 12, and what follows the header
abbrev pub mask_at : Bytes → ℕ
mask_at bytes = unpack_little (take 4 (drop 4 bytes))

abbrev pub size_at : Bytes → ℕ
size_at bytes = unpack_little (take 4 (drop 12 bytes))

-- `mask & 0x400`, and so on
abbrev pub bit : ℕ → ℕ → Bool
bit place mask = mask / place % 2 == 1

drop_tail : (xs ys : Bytes) (n k : ℕ) → n ≡ k + length xs → drop n (xs ++ ys) ≡ drop k ys
drop_tail [] ys n k e = ap (λ m. drop m ys) (omega arith)
drop_tail (x ∷ xs) ys zero k e = absurd (omega arith)
drop_tail (x ∷ xs) ys (suc n) k e = drop_tail xs ys n k (omega arith)

drop_past :
    (header xs ys : Bytes) (n : ℕ)
    → n ≡ length header + length xs
    → drop n (header ++ (xs ++ ys)) ≡ ys
drop_past header xs ys n e =
    drop_tail header (xs ++ ys) n (length xs) (omega arith)
    ∙ drop_tail xs ys (length xs) 0 (omega arith)

-- A notice is read back, before whatever follows it: its mask, the size of its name, and what is left
-- after both.
pub notice_read :
    (n : Notice) (rest : Bytes)
    → Fits n
    → let bytes = notice_bytes n ++ rest in
      (mask_at bytes ≡ n.mask)
      × (size_at bytes ≡ length n.name)
      × (length bytes ≡ 16 + length n.name + length rest)
      × (drop (16 + length n.name) bytes ≡ rest)
notice_read n rest f =
    let header =
      little 4 n.descriptor ++ little 4 n.mask ++ little 4 n.cookie ++ little 4 (length n.name) in
    (
      unpack_little-little n.mask f.0,
      unpack_little-little (length n.name) f.1,
      omega (arith, length-append n.name rest),
      drop_past header n.name rest (16 + length n.name) (omega arith),
    )

pub length-notices_bytes : (ns : List Notice) → length ns ≤ length (notices_bytes ns)
length-notices_bytes [] = omega arith
length-notices_bytes (n ∷ ns) =
    omega (arith, length-notices_bytes ns, length-append n.name (notices_bytes ns))
