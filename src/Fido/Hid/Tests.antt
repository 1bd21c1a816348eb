-- ===== src/Fido/Hid/Tests.antt =====
-- Runs of `class HID` on small inputs, and the theorems at inputs that meet their hypotheses
-- (guest/auth/fido2.py).
use ashacky.Base.{
  drop, replicate, Bytes, ok, ◌<◌, ◌≡◌, refl, none, some, List, [], ◌∷◌, ◌++◌, arith,
}
use ashacky.Fido.Packets.{broadcast, be32, first_packet, next_packet, next_packets, packets}
use ashacky.Fido.Hid.State.{init_, cbor_, Hid, Draw, empty, send, error}
use ashacky.Fido.Hid.Deadlines.{timeout, deadline}
use ashacky.Fido.Hid.Defs.{init_reply, receive}
use ashacky.Fido.Hid.Invariant.{IsValid}
use ashacky.Fido.Hid.Calls.{GoodOrDrawing, receive-IsValid}
use ashacky.Fido.Hid.Clock.{deadline-timeout}
use ashacky.Fido.Hid.Reassembly.{receive_all}
use ashacky.Fido.Hid.Delivery.{busy_with, Delivers, receive_all-packets}

abbrev draw : Draw
draw = record {
  randbits = 0 ∷ 0xffffffff ∷ 5 ∷ 7 ∷ [];
  uuid = 42;
  started = 1000;
  deadline_base = 1001;
  keepalive_base = 1002;
}

abbrev ready : Hid
ready = record { channels = 3 ∷ 5 ∷ []; fragment = none; busy = none }

-- A message of 60 bytes takes two reports.
abbrev message : Bytes
message = replicate 60 7

-- INIT on the broadcast channel: the first free id that is drawn becomes a channel.
abbrev init_packet : Bytes
init_packet = be32 broadcast ++ init_ ∷ 0 ∷ 8 ∷ replicate 57 9

init_assigns :
    receive draw init_packet empty
    ≡ some (record empty { channels = 5 ∷ [] }, init_reply init_packet broadcast 5)
unfolding receive
init_assigns = refl

-- A second report out of order drops the fragment.
out_of_order :
    receive_all
      (λ _. draw)
      0
      (first_packet 5 cbor_ message ∷ next_packet 5 1 (drop 57 message) ∷ [])
      ready
    ≡ some (record ready { channels = 3 ∷ 5 ∷ [] }, error 5 0x04)
unfolding receive_all receive send packets next_packets
out_of_order = refl

ready-IsValid : IsValid ready
ready-IsValid = ground arith

receive-IsValid_example : GoodOrDrawing (receive draw init_packet ready)
receive-IsValid_example = receive-IsValid draw init_packet ready ready-IsValid

abbrev working : Hid
working = record ready { busy = some (busy_with draw 3) }

working-IsValid : IsValid working
working-IsValid = ground arith

deadline-timeout_example : 0 < 200
unfolding timeout deadline send packets
deadline-timeout_example = deadline-timeout 1202 working 200 refl

receive_all-packets_example :
    (ps : List Bytes) × (packets 5 cbor_ message ≡ ok ps) × Delivers (λ _. draw) 5 message ready ps
receive_all-packets_example =
    receive_all-packets (λ _. draw) 5 message ready refl refl refl (omega arith) (omega arith)
      (omega arith) (omega arith)
