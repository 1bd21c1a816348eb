-- ===== src/Fido/Packets/Frames.antt =====
-- Every report of a message is 64 bytes long.
use ashacky.Base.{
  length, take, drop, replicate, length-append, length-take, length-replicate, All, Bytes, ℕ, zero,
  suc, ◌+◌, ◌-◌, ◌≤◌, ◌≡◌, ◌∷◌, ◌++◌, arith,
}
use ashacky.Fido.Packets.{be32, be16, ljust, first_packet, next_packet, next_packets}

abbrev pub IsReport : Bytes → Type 0
IsReport p = length p ≡ 64

pub length-ljust : (n : ℕ) (b : Bytes) → length b ≤ n → length (ljust n b) ≡ n
length-ljust n b h =
    omega (
      arith,
      length-append b (replicate (n - length b) 0),
      length-replicate {A = ℕ} (n - length b) 0,
    )

pub first_packet-IsReport :
    (channel command : ℕ) (payload : Bytes) → IsReport (first_packet channel command payload)
first_packet-IsReport channel command payload =
    length-ljust 64 (be32 channel ++ command ∷ be16 (length payload) ++ take 57 payload)
      (omega (arith, length-take 57 payload))

pub next_packet-IsReport :
    (channel sequence : ℕ) (rest : Bytes) → IsReport (next_packet channel sequence rest)
next_packet-IsReport channel sequence rest =
    length-ljust 64 (be32 channel ++ sequence ∷ take 59 rest) (omega (arith, length-take 59 rest))

pub next_packets-IsReport :
    (rounds channel sequence : ℕ) (rest : Bytes)
    → All IsReport (next_packets rounds channel sequence rest)
unfolding next_packets
next_packets-IsReport zero channel sequence rest = tt
next_packets-IsReport (suc rounds) channel sequence rest = (
  next_packet-IsReport channel sequence rest,
  next_packets-IsReport rounds channel (sequence + 1) (drop 59 rest),
)
