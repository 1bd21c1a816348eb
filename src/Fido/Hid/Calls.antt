-- ===== src/Fido/Hid/Calls.antt =====
-- Every call of `class HID` keeps its invariant, never raises, and hands over only reports of 64
-- bytes and messages that fit (guest/auth/fido2.py).
use ashacky.Base.{
  Option-cases, is_some, length, get_or, take, drop, length-append, length-take, All-append, Bytes,
  mem, ℕ, ◌+◌, ◌-◌, min, ◌≡◌, refl, ◌≢◌, inl, inr, true, false, Option, none, some, List, [], ◌∷◌,
  ◌++◌, arith,
}
use ashacky.Base.Distinct.{mem-append, Distinct-snoc, mem-move_to_end}
use ashacky.Fido.Packets.{broadcast, u32, u16}
use ashacky.Fido.Hid.State.{cbor_, Fragment, Busy, Hid, Effect, Draw, abort}
use ashacky.Fido.Hid.Deadlines.{complete}
use ashacky.Fido.Hid.Defs.{
  assign, evict, init_reply, resync, init, begin, continue, on_channel, touch, receive,
}
use ashacky.Fido.Hid.Reports.{IsProper, send-AllProper, error-AllProper, init_reply-AllProper}
use ashacky.Fido.Hid.Channels.{
  assign_fresh, unprotected, length-evict, evict-Distinct, mem-evict_absent, mem-evict_protected,
}
use ashacky.Fido.Hid.Invariant.{
  FragmentIsValid, BusyIsValid, IsValid, Good, touch-IsValid, drop_fragment-IsValid,
  drop_busy-IsValid, abort-Good, assemble-Good,
}

begin-Good :
    (draw : Draw) (packet : Bytes) (cid cmd : ℕ) (h : Hid)
    → IsValid h
    → h.busy ≡ none
    → mem cid h.channels ≡ true
    → Good (begin draw packet cid cmd h)
unfolding begin
begin-Good draw packet cid cmd h v idle m = elim (Option-cases h.fragment) [
  | inl e ↦
      let size = u16 (drop 5 packet) in
      ground (
        arith,
        error-AllProper cid 0x01,
        error-AllProper cid 0x03,
        length-take (min size 57) (drop 7 packet),
        assemble-Good draw cid h
            (record {
              cid = cid;
              cmd = cmd;
              size = size;
              body = take (min size 57) (drop 7 packet);
              sequence = 0;
              deadline = draw.started + 3000;
            })
            v idle m refl,
      )
  | inr (f, e) ↦
      ground (arith, error-AllProper cid 0x04, error-AllProper cid 0x06, drop_fragment-IsValid h v)
]

continue-Good :
    (draw : Draw) (packet : Bytes) (cid cmd : ℕ) (h : Hid)
    → IsValid h
    → h.busy ≡ none
    → mem cid h.channels ≡ true
    → Good (continue draw packet cid cmd h)
unfolding continue
continue-Good draw packet cid cmd h v idle m = elim (Option-cases h.fragment) [
  | inl e ↦ ground arith
  | inr (f, e) ↦
      let part = take (min 59 (f.size - length f.body)) (drop 5 packet) in
      ground (
        arith,
        error-AllProper cid 0x04,
        error-AllProper cid 0x06,
        drop_fragment-IsValid h v,
        length-append f.body part,
        length-take (min 59 (f.size - length f.body)) (drop 5 packet),
        assemble-Good draw cid h (record f { sequence = f.sequence + 1; body = f.body ++ part }) v
            idle m,
      )
]

on_channel-Good :
    (draw : Draw) (packet : Bytes) (cid cmd : ℕ) (h : Hid)
    → IsValid h
    → mem cid h.channels ≡ true
    → Good (on_channel draw packet cid cmd h)
unfolding on_channel
on_channel-Good draw packet cid cmd h v m = ground (
  arith,
  error-AllProper cid 0x03,
  error-AllProper cid 0x06,
  abort-Good true h v,
  begin-Good draw packet cid cmd h v,
  continue-Good draw packet cid cmd h v,
)

resync-Good : (cid : ℕ) (h : Hid) → IsValid h → Good (resync cid h)
unfolding resync
resync-Good cid h v = ground (
  arith,
  abort-Good false h v,
  drop_fragment-IsValid h v,
  drop_fragment-IsValid (abort false h).0 (abort-Good false h v).0,
)

busy_alone : (h : Hid) → IsValid h → is_some h.busy ≡ true → h.fragment ≡ none
busy_alone h v b = ground (arith, v.exclusive)

opened-IsValid :
    (h : Hid) (c : ℕ)
    → IsValid h
    → (c ≢ 0) × (c ≢ broadcast) × (mem c h.channels ≡ false)
    → IsValid (record h { channels = evict h ++ c ∷ [] })
opened-IsValid h c v fresh = record {
  distinct = Distinct-snoc c (evict h) (evict-Distinct h v.distinct) (mem-evict_absent h c fresh.2);
  capped = omega (
    arith,
    length-append (evict h) (c ∷ []),
    length-evict h v.distinct (busy_alone h v) v.capped,
  );
  not_zero =
      ground (arith, mem-append 0 (evict h) (c ∷ []), mem-evict_absent h 0 v.not_zero, fresh);
  not_broadcast = ground (
    arith,
    mem-append broadcast (evict h) (c ∷ []),
    mem-evict_absent h broadcast v.not_broadcast,
    fresh,
  );
  exclusive = v.exclusive;
  fragment_valid = fragment_kept h.fragment refl v.fragment_valid;
  busy_valid = busy_kept h.busy refl v.busy_valid;
}
  where
    kept :
        (k : ℕ)
        → unprotected h k ≡ false
        → mem k h.channels ≡ true
        → mem k (evict h ++ c ∷ []) ≡ true
    kept k p m = ground (arith, mem-append k (evict h) (c ∷ []), mem-evict_protected h k p m)

    fragment_kept :
        (o : Option Fragment)
        → h.fragment ≡ o
        → FragmentIsValid h.channels o
        → FragmentIsValid (evict h ++ c ∷ []) o
    fragment_kept none e p = tt
    fragment_kept (some f) e p = (kept f.cid (ground arith) p.0, p.1, p.2)

    busy_kept :
        (o : Option Busy)
        → h.busy ≡ o
        → BusyIsValid h.channels o
        → BusyIsValid (evict h ++ c ∷ []) o
    busy_kept none e p = tt
    busy_kept (some b) e p = kept b.cid (ground arith) p

-- the outcome of a call that may still be drawing a channel id
abbrev pub GoodOrDrawing : Option (Hid × List Effect) → Type 0
GoodOrDrawing none = Unit
GoodOrDrawing (some r) = Good r

init-Good :
    (draw : Draw) (packet : Bytes) (cid : ℕ) (h : Hid)
    → IsValid h
    → GoodOrDrawing (init draw packet cid h)
unfolding init
init-Good draw packet cid h v = elim (Option-cases (assign draw.randbits h.channels)) [
  | inl e ↦ ground (
    arith,
    error-AllProper cid 0x03,
    error-AllProper cid 0x0b,
    resync-Good cid h v,
    All-append IsProper (resync cid h).1 (init_reply packet cid cid) (resync-Good cid h v).1
        (init_reply-AllProper packet cid cid),
  )
  | inr (c, e) ↦ ground (
    arith,
    error-AllProper cid 0x03,
    error-AllProper cid 0x0b,
    resync-Good cid h v,
    init_reply-AllProper packet cid c,
    opened-IsValid h c v (assign_fresh draw.randbits h.channels c e),
    All-append IsProper (resync cid h).1 (init_reply packet cid cid) (resync-Good cid h v).1
        (init_reply-AllProper packet cid cid),
  )
]

-- A report of any content, on a valid machine, leaves it valid (at most 64 distinct channels, none of
-- them reserved; a request and a fragment never at once; the channels of both open; a fragment short
-- of a size that fits), and every effect is proper: reports of 64 bytes, requests of 1 to 1024
-- bytes, and no exception. A call that is still drawing a channel id has no outcome yet.
pub receive-IsValid :
    (draw : Draw) (packet : Bytes) (h : Hid) → IsValid h → GoodOrDrawing (receive draw packet h)
unfolding receive
receive-IsValid draw packet h v =
    let cid = u32 packet in
    ground (
      arith,
      error-AllProper cid 0x0b,
      init-Good draw packet cid h v,
      touch-IsValid cid h,
      on_channel-Good draw packet cid (get_or packet 4 0) (touch cid h),
      mem-move_to_end cid cid h.channels,
    )

-- A reply of the host, of any content and for any request, keeps a valid machine valid, and every
-- effect is proper.
pub complete-IsValid :
    (request_id : ℕ) (payload : Bytes) (h : Hid) → IsValid h → Good (complete request_id payload h)
unfolding complete
complete-IsValid request_id payload h v = elim (Option-cases h.busy) [
  | inl e ↦ ground arith
  | inr (b, e) ↦ ground (
    arith,
    drop_busy-IsValid h v,
    send-AllProper b.cid cbor_ payload,
    send-AllProper b.cid cbor_ (0x7f ∷ []),
  )
]
