-- ===== src/Fido/Hid/Reports.antt =====
-- What the methods of `class HID` hand to their callbacks (guest/auth/fido2.py).
use ashacky.Base.{
  length, take, drop, length-append, length-take, All, Bytes, ok, ℕ, ◌≤◌, ◌≡◌, List, [], ◌∷◌, ◌++◌,
  map, arith,
}
use ashacky.Fido.Packets.{max_message, be32, first_packet, next_packets, next_rounds, packets}
use ashacky.Fido.Packets.Frames.{IsReport, first_packet-IsReport, next_packets-IsReport}
use ashacky.Fido.Hid.State.{init_, error_, Effect, send, error, emit, request, cancel, raised}
use ashacky.Fido.Hid.Defs.{init_body, init_reply}

-- A report has 64 bytes, a request carries a message that fits, and nothing raises.
abbrev pub IsProper : Effect → Type 0
IsProper (emit p) = IsReport p
IsProper (request _ _ payload) = (1 ≤ length payload) × (length payload ≤ max_message)
IsProper (cancel _) = Unit
IsProper (raised _) = ⊥

abbrev pub AllProper : List Effect → Type 0
AllProper = All IsProper

emits-AllProper : (ps : List Bytes) → All IsReport ps → AllProper (map emit ps)
emits-AllProper [] h = tt
emits-AllProper (p ∷ ps) h = (h.0, emits-AllProper ps h.1)

pub packets_ok :
    (cid cmd : ℕ) (payload : Bytes)
    → length payload ≤ max_message
    → packets cid cmd payload
      ≡ ok (
          first_packet cid cmd payload
          ∷ next_packets (next_rounds (length payload)) cid 0 (drop 57 payload))
unfolding packets
packets_ok cid cmd payload h = ground arith

pub send-AllProper :
    (cid cmd : ℕ) (payload : Bytes)
    → length payload ≤ max_message
    → AllProper (send cid cmd payload)
unfolding send
send-AllProper cid cmd payload h =
    rw (packets_ok cid cmd payload h, send)
      (
        first_packet-IsReport cid cmd payload,
        emits-AllProper _
            (next_packets-IsReport (next_rounds (length payload)) cid 0 (drop 57 payload)),
      )

pub error-AllProper : (cid code : ℕ) → AllProper (error cid code)
error-AllProper cid code = send-AllProper cid error_ (code ∷ []) (omega arith)

pub init_reply-AllProper :
    (packet : Bytes) (cid assigned : ℕ) → AllProper (init_reply packet cid assigned)
init_reply-AllProper packet cid assigned = send-AllProper cid init_ (init_body packet assigned) (
    omega (
      arith,
      length-append (take 8 (drop 7 packet)) (be32 assigned ++ 2 ∷ 0 ∷ 1 ∷ 0 ∷ 0x0c ∷ []),
      length-take 8 (drop 7 packet),
    ))
