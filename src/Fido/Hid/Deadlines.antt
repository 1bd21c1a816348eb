-- ===== src/Fido/Hid/Deadlines.antt =====
-- `HID.complete`, `HID.timeout` and `HID.deadline` (guest/auth/fido2.py).
use ashacky.Base.{
  leb, ◌==◌, if◌then◌else◌, length, Bytes, ℕ, ◌+◌, ◌-◌, min, ◌&&◌, Option, none, some, List, [],
  ◌∷◌, ◌++◌,
}
use ashacky.Fido.Packets.{max_message}
use ashacky.Fido.Hid.State.{cbor_, keepalive_, Fragment, Busy, Hid, Effect, send, error, cancel}

unfoldable pub complete : ℕ → Bytes → Hid → Hid × List Effect
complete request_id payload h = elim h.busy [
  | none ↦ (h, [])
  | some b ↦
      if b.request_id == request_id
      then (
        record h { busy = none },
        send b.cid cbor_ (
            if leb 1 (length payload) && leb (length payload) max_message
            then payload
            else 0x7f ∷ []),
      )
      else (h, [])
]

abbrev pub expire_fragment : ℕ → Hid → Hid × List Effect
expire_fragment now h = elim h.fragment [
  | none ↦ (h, [])
  | some f ↦
      if leb f.deadline now then (record h { fragment = none }, error f.cid 0x05) else (h, [])
]

abbrev pub expire_busy : ℕ → Hid → Hid × List Effect
expire_busy now h = elim h.busy [
  | none ↦ (h, [])
  | some b ↦
      if leb b.deadline now
      then (record h { busy = none }, cancel b.request_id ∷ send b.cid cbor_ (0x2f ∷ []))
      else if leb b.keepalive now
      then (
        record h { busy = some (record b { keepalive = now + 200 }) },
        send b.cid keepalive_ (0x02 ∷ []),
      )
      else (h, [])
]

unfoldable pub timeout : ℕ → Hid → Hid × List Effect
timeout now h =
    let (h₁, es₁) = expire_fragment now h in let (h₂, es₂) = expire_busy now h₁ in (h₂, es₁ ++ es₂)

abbrev pub fragment_times : Option Fragment → List ℕ
fragment_times none = []
fragment_times (some f) = f.deadline ∷ []

abbrev pub busy_times : Option Busy → List ℕ
busy_times none = []
busy_times (some b) = b.deadline ∷ b.keepalive ∷ []

-- `min(times)` of a list that is not empty
abbrev pub minimum : ℕ → List ℕ → ℕ
minimum t [] = t
minimum t (u ∷ us) = min t (minimum u us)

abbrev pub wait_for : List ℕ → ℕ → Option ℕ
wait_for [] now = none
wait_for (t ∷ ts) now = some (minimum t ts - now)

-- how long the event loop may sleep, `none` for ever
unfoldable pub deadline : ℕ → Hid → Option ℕ
deadline now h = wait_for (fragment_times h.fragment ++ busy_times h.busy) now
