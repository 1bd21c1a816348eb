-- ===== src/Fido/Hid/Reassembly.antt =====
-- The reports of `packets`, received one after another, are put together again
-- (guest/auth/fido2.py, `packets` and `HID.receive`).
use ashacky.Base.{
  length, get_or, take, drop, length-append, length-take, length-drop, take-append, take_all,
  take-append-drop, Bytes, mem, ℕ, zero, suc, ◌+◌, ◌-◌, ◌/◌, ◌≤◌, ◌<◌, min, ◌≡◌, refl, ap, ◌∙◌, ◌≢◌,
  ◌⊎◌, true, Option, none, some, List, [], ◌∷◌, ◌++◌, append-nil, append_assoc, arith,
}
use ashacky.Base.Distinct.{mem-move_to_end}
use ashacky.Fido.Packets.{
  max_message, broadcast, be32, u32, u16, first_packet, next_packet, next_packets, next_rounds,
}
use ashacky.Fido.Packets.Frames.{first_packet-IsReport, next_packet-IsReport}
use ashacky.Fido.Hid.State.{ping_, cbor_, Fragment, Hid, Effect, Draw}
use ashacky.Fido.Hid.Defs.{assemble, begin, continue, on_channel, touch, receive}

-- effects that come before those of a further run
abbrev pub prepend : List Effect → Option (Hid × List Effect) → Option (Hid × List Effect)
prepend es none = none
prepend es (some (h, fs)) = some (h, es ++ fs)

-- A run of `receive` over reports, the `k`-th call reading `draws k`; `none` if a call draws on.
unfoldable pub receive_all : (ℕ → Draw) → ℕ → List Bytes → Hid → Option (Hid × List Effect)
receive_all draws k [] h = some (h, [])
receive_all draws k (p ∷ ps) h = elim (receive (draws k) p h) [
  | none ↦ none
  | some (h', es) ↦ prepend es (receive_all draws (k + 1) ps h')
]

-- How a report reads: its channel, its sequence number and its part of the message.
u32-be32 : (n : ℕ) (rest : Bytes) → u32 (be32 n ++ rest) ≡ n
u32-be32 n rest = omega arith

next_part :
    (cid seq size : ℕ) (rest : Bytes)
    → size ≡ length rest
    → take (min 59 size) (drop 5 (next_packet cid seq rest)) ≡ take 59 rest
next_part cid seq size rest e =
    take-append (min 59 size) (take 59 rest) _ (omega (arith, length-take 59 rest))

-- a machine that waits for the report number `f.sequence` of channel `cid`
pub record Waits (cid : ℕ) (h : Hid) (f : Fragment) : Type 0 where
  pub open_channel : mem cid h.channels ≡ true
  pub idle : h.busy ≡ none
  pub waiting : h.fragment ≡ some f
  pub same : f.cid ≡ cid

abbrev extended : Fragment → Bytes → Fragment
extended f part = record f { sequence = f.sequence + 1; body = f.body ++ part }

receive-continue :
    (draw : Draw) (cid : ℕ) (p part : Bytes) (h : Hid) (f : Fragment)
    → Waits cid h f
    → cid ≢ 0
    → cid ≢ broadcast
    → length p ≡ 64
    → u32 p ≡ cid
    → get_or p 4 0 ≡ f.sequence
    → f.sequence < 128
    → take (min 59 (f.size - length f.body)) (drop 5 p) ≡ part
    → receive draw p h
      ≡ some (assemble draw cid (record (touch cid h) { fragment = some (extended f part) }))
unfolding receive on_channel continue
receive-continue draw cid p part h f w nz nb report addressed numbered small e =
    rw (addressed, numbered, report, ← e) (ground arith)

receive-next :
    (draw : Draw) (cid : ℕ) (rest : Bytes) (h : Hid) (f : Fragment)
    → Waits cid h f
    → cid ≢ 0
    → cid ≢ broadcast
    → f.sequence < 128
    → f.size ≡ length f.body + length rest
    → receive draw (next_packet cid f.sequence rest) h
      ≡ some
          (assemble draw cid (record (touch cid h) { fragment = some (extended f (take 59 rest)) }))
receive-next draw cid rest h f w nz nb small size =
    receive-continue draw cid (next_packet cid f.sequence rest) (take 59 rest) h f w nz nb
      (next_packet-IsReport cid f.sequence rest) (omega arith) refl small
      (next_part cid f.sequence (f.size - length f.body) rest (omega arith))

-- What a run comes to: no effect before the last call, whose part is the whole message `body`.
unfoldable pub Assembled : Draw → ℕ → Bytes → ℕ → Option (Hid × List Effect) → Type 0
Assembled draw cid body cmd r =
    (h : Hid) × (f : Fragment) × (r ≡ some (assemble draw cid (record h { fragment = some f })))
    × (f.body ≡ body)
    × (f.cmd ≡ cmd)
    × (f.size ≡ length body)
    × (h.busy ≡ none)

receive_all-last :
    (draws : ℕ → Draw) (k : ℕ) (p : Bytes) (h : Hid) {r : Hid × List Effect}
    → receive (draws k) p h ≡ some r
    → receive_all draws k (p ∷ []) h ≡ some r
unfolding receive_all
receive_all-last draws k p h {r} e = rw (receive_all, e) (rw append-nil)

prepend-nil : (r : Option (Hid × List Effect)) → prepend [] r ≡ r
prepend-nil none = refl
prepend-nil (some r) = refl

receive_all-silent :
    (draws : ℕ → Draw) (k : ℕ) (p : Bytes) (ps : List Bytes) (h h' : Hid)
    → receive (draws k) p h ≡ some (h', [])
    → receive_all draws k (p ∷ ps) h ≡ receive_all draws (k + 1) ps h'
unfolding receive_all
receive_all-silent draws k p ps h h' e =
    rw (receive_all, e) (prepend-nil (receive_all draws (k + 1) ps h'))

Assembled-cast :
    (cid cmd : ℕ) {d d' : Draw} {body body' : Bytes} {r r' : Option (Hid × List Effect)}
    → d ≡ d'
    → body ≡ body'
    → r' ≡ r
    → Assembled d cid body cmd r
    → Assembled d' cid body' cmd r'
Assembled-cast cid cmd p q s a = rw (← p, ← q, s) a

assemble-short :
    (draw : Draw) (cid : ℕ) (h : Hid) (f : Fragment)
    → length f.body < f.size
    → assemble draw cid (record h { fragment = some f }) ≡ (record h { fragment = some f }, [])
unfolding assemble
assemble-short draw cid h f lt = ground arith

touch-Waits :
    (cid : ℕ) (h : Hid) (f : Fragment) (part : Bytes)
    → Waits cid h f
    → Waits cid (record (touch cid h) { fragment = some (extended f part) }) (extended f part)
touch-Waits cid h f part w = record {
  open_channel = mem-move_to_end cid cid h.channels w.open_channel ∙ w.open_channel;
  idle = w.idle;
  waiting = refl;
  same = w.same;
}

-- The further reports of a message, while there is a rest of it.
loop :
    (draws : ℕ → Draw) (k rounds cid : ℕ) (rest : Bytes) (h : Hid) (f : Fragment)
    → Waits cid h f
    → cid ≢ 0
    → cid ≢ broadcast
    → suc rounds ≡ (length rest + 58) / 59
    → f.sequence + suc rounds ≤ 128
    → f.size ≡ length f.body + length rest
    → Assembled
        (draws (k + rounds))
        cid
        (f.body ++ rest)
        f.cmd
        (receive_all draws k (next_packets (suc rounds) cid f.sequence rest) h)
unfolding next_packets Assembled
loop draws k zero cid rest h f w nz nb count small size =
    let whole : take 59 rest ≡ rest = take_all 59 rest (omega arith) in
    let here : k + 0 ≡ k = omega arith in
    (
      touch cid h,
      extended f (take 59 rest),
      rw here (
          receive_all-last draws k _ h
            (receive-next (draws k) cid rest h f w nz nb (omega arith) size)),
      rw whole,
      refl,
      omega (arith, length-append f.body rest),
      w.idle,
    )
loop draws k (suc rounds) cid rest h f w nz nb count small size =
    let h' : Hid = record (touch cid h) { fragment = some (extended f (take 59 rest)) } in
    let step =
      receive-next (draws k) cid rest h f w nz nb (omega arith) size
      ∙ ap some (
          assemble-short (draws k) cid (touch cid h) (extended f (take 59 rest))
            (omega (arith, length-append f.body (take 59 rest), length-take 59 rest))) in
    let next =
      loop draws (k + 1) rounds cid (drop 59 rest) h' (extended f (take 59 rest))
        (touch-Waits cid h f (take 59 rest) w) nz nb (omega (arith, length-drop 59 rest))
        (omega arith)
        (omega
          (arith, length-append f.body (take 59 rest), length-take 59 rest, length-drop 59 rest)) in
    Assembled-cast cid f.cmd (ap draws (omega arith))
      (append_assoc f.body (take 59 rest) (drop 59 rest)
        ∙ ap (λ t. f.body ++ t) (take-append-drop 59 rest))
      (receive_all-silent draws k _ _ h h' step) next

abbrev opened : Draw → ℕ → ℕ → ℕ → Bytes → Fragment
opened draw cid cmd size part = record {
  cid = cid;
  cmd = cmd;
  size = size;
  body = part;
  sequence = 0;
  deadline = draw.started + 3000;
}

receive-begin :
    (draw : Draw) (cid cmd size : ℕ) (p part : Bytes) (h : Hid)
    → mem cid h.channels ≡ true
    → h.busy ≡ none
    → h.fragment ≡ none
    → cid ≢ 0
    → cid ≢ broadcast
    → (cmd ≡ ping_) ⊎ (cmd ≡ cbor_)
    → length p ≡ 64
    → u32 p ≡ cid
    → get_or p 4 0 ≡ cmd
    → u16 (drop 5 p) ≡ size
    → size ≤ max_message
    → take (min size 57) (drop 7 p) ≡ part
    → receive draw p h
      ≡ some (
          assemble draw cid
            (record (touch cid h) { fragment = some (opened draw cid cmd size part) }))
unfolding receive on_channel begin
receive-begin draw cid cmd size p part h m idle none_yet nz nb kind report addressed command sized
      fits e =
    rw (addressed, command, report, sized, ← e) (ground arith)

receive-first :
    (draw : Draw) (cid cmd : ℕ) (payload : Bytes) (h : Hid)
    → mem cid h.channels ≡ true
    → h.busy ≡ none
    → h.fragment ≡ none
    → cid ≢ 0
    → cid ≢ broadcast
    → (cmd ≡ ping_) ⊎ (cmd ≡ cbor_)
    → length payload ≤ max_message
    → receive draw (first_packet cid cmd payload) h
      ≡ some (
          assemble draw cid (record (touch cid h) {
            fragment = some (opened draw cid cmd (length payload) (take 57 payload));
          }))
receive-first draw cid cmd payload h m idle none_yet nz nb kind fits =
    receive-begin draw cid cmd (length payload) (first_packet cid cmd payload) (take 57 payload) h m
      idle none_yet nz nb kind (first_packet-IsReport cid cmd payload) (omega arith) refl
      (omega arith) fits
      (take-append (min (length payload) 57) (take 57 payload) _
        (omega (arith, length-take 57 payload)))

pub whole_message :
    (draws : ℕ → Draw) (rounds cid cmd : ℕ) (payload : Bytes) (h : Hid)
    → mem cid h.channels ≡ true
    → h.busy ≡ none
    → h.fragment ≡ none
    → cid ≢ 0
    → cid ≢ broadcast
    → (cmd ≡ ping_) ⊎ (cmd ≡ cbor_)
    → length payload ≤ max_message
    → next_rounds (length payload) ≡ rounds
    → Assembled (draws rounds) cid payload cmd (
        receive_all draws 0
          (first_packet cid cmd payload ∷ next_packets rounds cid 0 (drop 57 payload))
          h)
unfolding next_packets Assembled
whole_message draws zero cid cmd payload h m idle none_yet nz nb kind fits e =
    let whole : take 57 payload ≡ payload = take_all 57 payload (omega arith) in
    (
      touch cid h,
      opened (draws 0) cid cmd (length payload) (take 57 payload),
      receive_all-last draws 0 _ h
          (receive-first (draws 0) cid cmd payload h m idle none_yet nz nb kind fits),
      whole,
      refl,
      refl,
      idle,
    )
whole_message draws (suc rounds) cid cmd payload h m idle none_yet nz nb kind fits e =
    let f : Fragment = opened (draws 0) cid cmd (length payload) (take 57 payload) in
    let h' : Hid = record (touch cid h) { fragment = some f } in
    let sized : length payload ≡ length (take 57 payload) + length (drop 57 payload) =
      omega (arith, length-take 57 payload, length-drop 57 payload) in
    let step =
      receive-first (draws 0) cid cmd payload h m idle none_yet nz nb kind fits
      ∙ ap some
          (assemble-short (draws 0) cid (touch cid h) f (omega (arith, length-take 57 payload))) in
    let w : Waits cid h' f = record {
      open_channel = mem-move_to_end cid cid h.channels m ∙ m;
      idle = idle;
      waiting = refl;
      same = refl;
    } in
    let next =
      loop draws 1 rounds cid (drop 57 payload) h' f w nz nb (omega (arith, length-drop 57 payload))
        (omega arith) sized in
    Assembled-cast cid cmd (ap draws (omega arith)) (take-append-drop 57 payload)
      (receive_all-silent draws 0 _ _ h h' step) next
