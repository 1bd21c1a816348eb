-- ===== src/Base/Packing.antt =====
-- Numbers in little-endian bytes, as `struct` packs and unpacks them.
use ashacky.Base.{length, Bytes, ℕ, zero, suc, ◌+◌, ◌*◌, ◌/◌, ◌%◌, ◌<◌, ◌≡◌, refl, [], ◌∷◌, arith}

-- the `n` bytes of a number, which loses what lies above them
abbrev pub little : ℕ → ℕ → Bytes
little zero v = []
little (suc n) v = v % 256 ∷ little n (v / 256)

abbrev pub unpack_little : Bytes → ℕ
unpack_little [] = 0
unpack_little (b ∷ bs) = b + 256 * unpack_little bs

pub length-little : (n v : ℕ) → length (little n v) ≡ n
length-little zero v = refl
length-little (suc n) v = omega (arith, length-little n (v / 256))

-- Four bytes hold a number below 2 ^ 32.
pub unpack_little-little : (v : ℕ) → v < 4294967296 → unpack_little (little 4 v) ≡ v
unpack_little-little v h = omega arith

-- Two bytes hold a number below 2 ^ 16.
pub unpack_little-little_two : (v : ℕ) → v < 65536 → unpack_little (little 2 v) ≡ v
unpack_little-little_two v h = omega arith
