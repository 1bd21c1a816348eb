-- ===== src/Fido/Hid/Delivery.antt =====
-- A message that a peer splits into reports reaches the host whole, and once
-- (guest/auth/fido2.py, `packets` and `HID.receive`).
use ashacky.Base.{
  length, Bytes, mem, ok, ℕ, ◌+◌, ◌≤◌, ◌≡◌, refl, ap, ◌∙◌, ◌≢◌, inl, inr, true, Option, none, some,
  List, [], ◌∷◌, map, arith,
}
use ashacky.Fido.Packets.{max_message, broadcast, next_rounds, packets}
use ashacky.Fido.Hid.State.{ping_, cbor_, Busy, Hid, Effect, Draw, send, emit, request}
use ashacky.Fido.Hid.Defs.{assemble}
use ashacky.Fido.Hid.Reports.{packets_ok}
use ashacky.Fido.Hid.Reassembly.{receive_all, Assembled, whole_message}

-- The busy entry that a complete request leaves.
abbrev pub busy_with : Draw → ℕ → Busy
busy_with draw cid = record {
  cid = cid;
  request_id = draw.uuid;
  deadline = draw.deadline_base + 65000;
  keepalive = draw.keepalive_base + 200;
}

abbrev pub Delivers : (ℕ → Draw) → ℕ → Bytes → Hid → List Bytes → Type 0
Delivers draws cid payload h ps =
    let draw = draws (next_rounds (length payload)) in
    (h' : Hid) × (receive_all draws 0 ps h ≡ some (h', request draw.uuid cid payload ∷ []))
    × (h'.busy ≡ some (busy_with draw cid))
    × (h'.fragment ≡ none)

abbrev pub Echoes : (ℕ → Draw) → ℕ → Bytes → Hid → List Bytes → Type 0
Echoes draws cid payload h ps =
    (h' : Hid) × (receive_all draws 0 ps h ≡ some (h', map emit ps))
    × (h'.busy ≡ none)
    × (h'.fragment ≡ none)

Assembled-Delivers :
    (draw : Draw) (cid : ℕ) (payload : Bytes) (r : Option (Hid × List Effect))
    → 1 ≤ length payload
    → Assembled draw cid payload cbor_ r
    → (h' : Hid) × (r ≡ some (h', request draw.uuid cid payload ∷ []))
      × (h'.busy ≡ some (busy_with draw cid))
      × (h'.fragment ≡ none)
unfolding Assembled assemble
Assembled-Delivers draw cid payload r pos (h, f, e, body, cmd, size, idle) =
    (record h { fragment = none; busy = some (busy_with draw cid) }, ground arith, refl, refl)

Assembled-Echoes :
    (draw : Draw) (cid : ℕ) (payload : Bytes) (r : Option (Hid × List Effect))
    → Assembled draw cid payload ping_ r
    → (h' : Hid) × (r ≡ some (h', send cid ping_ payload)) × (h'.busy ≡ none) × (h'.fragment ≡ none)
unfolding Assembled assemble
Assembled-Echoes draw cid payload r (h, f, e, body, cmd, size, idle) =
    (record h { fragment = none }, ground arith, idle, refl)

module _ (draws : ℕ → Draw) (cid : ℕ) (payload : Bytes) (h : Hid) where
  -- On an open channel of a machine with no transaction, the reports of a CBOR message of 1 to 1024
  -- bytes lead to exactly one effect, at the last report: a request with the channel and the same
  -- bytes; the machine is then busy with that request.
  pub receive_all-packets :
      mem cid h.channels ≡ true
      → h.busy ≡ none
      → h.fragment ≡ none
      → cid ≢ 0
      → cid ≢ broadcast
      → 1 ≤ length payload
      → length payload ≤ max_message
      → (ps : List Bytes) × (packets cid cbor_ payload ≡ ok ps) × Delivers draws cid payload h ps
  receive_all-packets m idle none_yet nz nb pos fits = (
    _,
    packets_ok cid cbor_ payload fits,
    Assembled-Delivers (draws (next_rounds (length payload))) cid payload _ pos
        (whole_message draws _ cid cbor_ payload h m idle none_yet nz nb (inr refl) fits refl),
  )

  -- On an open channel of a machine with no transaction, the reports of a PING of up to 1024 bytes
  -- are answered, after the last one, by the same reports; no transaction is left.
  receive_all-ping :
      mem cid h.channels ≡ true
      → h.busy ≡ none
      → h.fragment ≡ none
      → cid ≢ 0
      → cid ≢ broadcast
      → length payload ≤ max_message
      → (ps : List Bytes) × (packets cid ping_ payload ≡ ok ps) × Echoes draws cid payload h ps
  unfolding send
  receive_all-ping m idle none_yet nz nb fits =
      let reports = packets_ok cid ping_ payload fits in
      let (h', e, b, f) =
        Assembled-Echoes (draws (next_rounds (length payload))) cid payload _
          (whole_message draws _ cid ping_ payload h m idle none_yet nz nb (inl refl) fits refl) in
      (_, reports, (h', e ∙ ap (λ es. some (h', es)) (rw (send, reports)), b, f))
