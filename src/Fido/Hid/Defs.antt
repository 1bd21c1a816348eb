-- ===== src/Fido/Hid/Defs.antt =====
-- `HID.receive` (guest/auth/fido2.py), a function for each of its branches.
use ashacky.Base.{
  ltb, leb, ◌==◌, if◌then◌else◌, is_some, length, get_or, take, drop, find, Bytes, mem, remove,
  bytes_eq, ℕ, ◌+◌, ◌-◌, ◌/◌, ◌%◌, min, Bool, true, false, not, ◌&&◌, ◌||◌, Option, none, some,
  List, [], ◌∷◌, ◌++◌,
}
use ashacky.Base.Distinct.{move_to_end}
use ashacky.Fido.Packets.{max_message, broadcast, be32, u32, u16}
use ashacky.Fido.Hid.State.{
  ping_, init_, cbor_, cancel_, Hid, Effect, Draw, send, error, busy_on, fragment_on, abort,
  request,
}

-- The loop that draws a channel id; `none` means that it is still drawing.
unfoldable pub assign : List ℕ → List ℕ → Option ℕ
assign [] channels = none
assign (d ∷ ds) channels =
    let rest = assign ds channels in
    if d == 0 || d == broadcast || mem d channels then rest else some d

-- The channels after the eviction that keeps at most 64 of them.
unfoldable pub evict : Hid → List ℕ
evict h =
    if leb 64 (length h.channels)
    then elim (find (λ c. not (busy_on h.busy c || fragment_on h.fragment c)) h.channels) [
      | none ↦ h.channels
      | some victim ↦ remove victim h.channels
    ]
    else h.channels

-- the nonce, the channel, CTAPHID version 2 and the capabilities
abbrev pub init_body : Bytes → ℕ → Bytes
init_body packet assigned = take 8 (drop 7 packet) ++ (be32 assigned ++ 2 ∷ 0 ∷ 1 ∷ 0 ∷ 0x0c ∷ [])

abbrev pub init_reply : Bytes → ℕ → ℕ → List Effect
init_reply packet cid assigned = send cid init_ (init_body packet assigned)

-- A known channel is initialised again: its own transaction is given up.
unfoldable pub resync : ℕ → Hid → Hid × List Effect
unfolding abort
resync cid h =
    let (h', es) = if busy_on h.busy cid then abort false h else (h, []) in
    ((if fragment_on h'.fragment cid then record h' { fragment = none } else h'), es)

unfoldable pub init : Draw → Bytes → ℕ → Hid → Option (Hid × List Effect)
unfolding resync assign evict
init draw packet cid h =
    if not (u16 (drop 5 packet) == 8)
    then some (h, error cid 0x03)
    else if not (cid == broadcast) && not (mem cid h.channels)
    then some (h, error cid 0x0b)
    else if cid == broadcast
    then elim (assign draw.randbits h.channels) [
      | none ↦ none
      | some assigned ↦
          some (record h { channels = evict h ++ assigned ∷ [] }, init_reply packet cid assigned)
    ]
    else let (h', es) = resync cid h in some (h', es ++ init_reply packet cid cid)

-- The end of `receive`: a fragment that is complete is answered, or handed to the host.
unfoldable pub assemble : Draw → ℕ → Hid → Hid × List Effect
assemble draw cid h = elim h.fragment [
  | none ↦ (h, [])
  | some part ↦
      if not (length part.body == part.size)
      then (h, [])
      else let h' = record h { fragment = none } in
        if part.cmd == ping_
        then (h', send cid ping_ part.body)
        else if length part.body == 0
        then (h', error cid 0x03)
        else (
          record h' {
            busy = some (record {
              cid = cid;
              request_id = draw.uuid;
              deadline = draw.deadline_base + 65000;
              keepalive = draw.keepalive_base + 200;
            });
          },
          request draw.uuid cid part.body ∷ [],
        )
]

-- The first report of a message.
unfoldable pub begin : Draw → Bytes → ℕ → ℕ → Hid → Hid × List Effect
unfolding assemble
begin draw packet cid cmd h = elim h.fragment [
  | some f ↦
      if not (f.cid == cid)
      then (h, error cid 0x06)
      else (record h { fragment = none }, error cid 0x04)
  | none ↦
      let size = u16 (drop 5 packet) in
      if ltb max_message size
      then (h, error cid 0x03)
      else if not (cmd == ping_ || cmd == cbor_)
      then (h, error cid 0x01)
      else assemble draw cid (record h {
        fragment = some (record {
          cid = cid;
          cmd = cmd;
          size = size;
          body = take (min size 57) (drop 7 packet);
          sequence = 0;
          deadline = draw.started + 3000;
        });
      })
]

-- A further report; `cmd` is its sequence number.
unfoldable pub continue : Draw → Bytes → ℕ → ℕ → Hid → Hid × List Effect
unfolding assemble
continue draw packet cid cmd h = elim h.fragment [
  | none ↦ (h, [])
  | some f ↦
      if not (f.cid == cid)
      then (h, error cid 0x06)
      else if not (cmd == f.sequence)
      then (record h { fragment = none }, error cid 0x04)
      else assemble draw cid (record h {
        fragment = some (record f {
          sequence = f.sequence + 1;
          body = f.body ++ take (min 59 (f.size - length f.body)) (drop 5 packet);
        });
      })
]

-- `cmd & 0x80`
abbrev pub starts_message : ℕ → Bool
starts_message cmd = cmd / 128 % 2 == 1

unfoldable pub on_channel : Draw → Bytes → ℕ → ℕ → Hid → Hid × List Effect
unfolding abort begin continue
on_channel draw packet cid cmd h =
    if cmd == cancel_
    then (if not (bytes_eq (take 2 (drop 5 packet)) (0 ∷ 0 ∷ []))
        then (h, error cid 0x03)
        else if busy_on h.busy cid
        then abort true h
        else (h, []))
    else if is_some h.busy
    then (h, error cid 0x06)
    else if starts_message cmd
    then begin draw packet cid cmd h
    else continue draw packet cid cmd h

-- `self.channels.move_to_end(cid)`
abbrev pub touch : ℕ → Hid → Hid
touch cid h = record h { channels = move_to_end cid h.channels }

unfoldable pub receive : Draw → Bytes → Hid → Option (Hid × List Effect)
unfolding init on_channel
receive draw packet h =
    let cid = u32 packet in
    let cmd = get_or packet 4 0 in
    if not (length packet == 64)
    then some (h, [])
    else if cid == 0
    then some (h, error cid 0x0b)
    else if cmd == init_
    then init draw packet cid h
    else if cid == broadcast || not (mem cid h.channels)
    then some (h, error cid 0x0b)
    else some (on_channel draw packet cid cmd (touch cid h))
