-- ===== src/Fido/Packets.antt =====
-- CTAPHID reports (guest/auth/fido2.py, `packets`): a message as reports of 64 bytes.
pub mod Frames
use ashacky.Base.{
  ltb, if◌then◌else◌, length, get_or, take, drop, replicate, Bytes, Result, value_error, ok, err, ℕ,
  zero, suc, ◌+◌, ◌-◌, ◌*◌, ◌/◌, ◌%◌, List, [], ◌∷◌, ◌++◌,
}

abbrev pub max_message : ℕ
max_message = 1024

abbrev pub broadcast : ℕ
broadcast = 0xffffffff

-- big-endian fields, as `struct.pack` writes them of values that fit, and `struct.unpack` reads them
abbrev pub be32 : ℕ → Bytes
be32 n = n / 16777216 ∷ n / 65536 % 256 ∷ n / 256 % 256 ∷ n % 256 ∷ []

abbrev pub be16 : ℕ → Bytes
be16 n = n / 256 ∷ n % 256 ∷ []

abbrev pub u32 : Bytes → ℕ
u32 b = get_or b 0 0 * 16777216 + get_or b 1 0 * 65536 + get_or b 2 0 * 256 + get_or b 3 0

abbrev pub u16 : Bytes → ℕ
u16 b = get_or b 0 0 * 256 + get_or b 1 0

-- `b.ljust(n, b'\0')`
abbrev pub ljust : ℕ → Bytes → Bytes
ljust n b = b ++ replicate (n - length b) 0

abbrev pub first_packet : ℕ → ℕ → Bytes → Bytes
first_packet channel command payload =
    ljust 64 (be32 channel ++ command ∷ be16 (length payload) ++ take 57 payload)

abbrev pub next_packet : ℕ → ℕ → Bytes → Bytes
next_packet channel sequence rest = ljust 64 (be32 channel ++ sequence ∷ take 59 rest)

-- the rounds of `range(57, len(payload), 59)`, on what is left of the payload
unfoldable pub next_packets : ℕ → ℕ → ℕ → Bytes → List Bytes
next_packets zero channel sequence rest = []
next_packets (suc rounds) channel sequence rest =
    next_packet channel sequence rest ∷ next_packets rounds channel (sequence + 1) (drop 59 rest)

-- `len(range(57, n, 59))`
abbrev pub next_rounds : ℕ → ℕ
next_rounds n = (n - 57 + 58) / 59

unfoldable pub packets : ℕ → ℕ → Bytes → Result (List Bytes)
packets channel command payload =
    if ltb max_message (length payload)
    then err value_error
    else ok (
        first_packet channel command payload
        ∷ next_packets (next_rounds (length payload)) channel 0 (drop 57 payload))
