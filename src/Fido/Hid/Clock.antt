-- ===== src/Fido/Hid/Clock.antt =====
-- The deadlines of `class HID` (guest/auth/fido2.py, `timeout` and `deadline`).
use ashacky.Base.{Option-cases, All-append, ℕ, ◌<◌, ◌≡◌, inl, inr, some, [], ◌∷◌, arith}
use ashacky.Fido.Hid.State.{cbor_, keepalive_, Hid}
use ashacky.Fido.Hid.Deadlines.{expire_fragment, expire_busy, timeout, deadline}
use ashacky.Fido.Hid.Reports.{IsProper, send-AllProper, error-AllProper}
use ashacky.Fido.Hid.Invariant.{IsValid, Good, drop_fragment-IsValid, drop_busy-IsValid}

expire_busy-Good : (now : ℕ) (h : Hid) → IsValid h → Good (expire_busy now h)
expire_busy-Good now h v = elim (Option-cases h.busy) [
  | inl e ↦ ground arith
  | inr (b, e) ↦ ground (
    arith,
    drop_busy-IsValid h v,
    send-AllProper b.cid cbor_ (0x2f ∷ []),
    send-AllProper b.cid keepalive_ (0x02 ∷ []),
  )
]

expire_fragment-Good : (now : ℕ) (h : Hid) → IsValid h → Good (expire_fragment now h)
expire_fragment-Good now h v = elim (Option-cases h.fragment) [
  | inl e ↦ ground arith
  | inr (f, e) ↦ ground (arith, drop_fragment-IsValid h v, error-AllProper f.cid 0x05)
]

-- A check of the deadlines at any time keeps a valid machine valid, and every effect is proper.
pub timeout-IsValid : (now : ℕ) (h : Hid) → IsValid h → Good (timeout now h)
unfolding timeout
timeout-IsValid now h v =
    let g = expire_fragment-Good now h v in
    let k = expire_busy-Good now (expire_fragment now h).0 g.0 in
    (k.0, All-append IsProper (expire_fragment now h).1 _ g.1 k.1)

-- Once the deadlines have been checked at a time, the event loop has none left that lies at or
-- before that time: it sleeps for ever, or for more than no time.
pub deadline-timeout :
    (now : ℕ) (h : Hid) (wait : ℕ) → deadline now (timeout now h).0 ≡ some wait → 0 < wait
unfolding timeout deadline
deadline-timeout now h wait e = ground arith
