-- ===== src/Fido/Hid/Invariant.antt =====
-- What holds of `class HID` between two calls (guest/auth/fido2.py).
use ashacky.Base.{
  Option-cases, ◌&&◌, is_some, length, mem, ℕ, ◌≤◌, ◌<◌, ◌≡◌, ◌∙◌, inl, inr, Bool, true, false,
  Option, none, some, List, [], ◌∷◌, arith,
}
use ashacky.Base.Distinct.{
  Distinct, move_to_end, mem-move_to_end, move_to_end-Distinct, length-move_to_end,
}
use ashacky.Fido.Packets.{max_message, broadcast}
use ashacky.Fido.Hid.State.{ping_, cbor_, Fragment, Busy, Hid, Effect, Draw, empty, abort}
use ashacky.Fido.Hid.Defs.{assemble, touch}
use ashacky.Fido.Hid.Reports.{AllProper, send-AllProper, error-AllProper}

-- A fragment is short of its announced size, which fits a message, and its channel is open.
abbrev pub FragmentIsValid : List ℕ → Option Fragment → Type 0
FragmentIsValid channels none = Unit
FragmentIsValid channels (some f) =
    (mem f.cid channels ≡ true) × (length f.body < f.size) × (f.size ≤ max_message)

abbrev pub BusyIsValid : List ℕ → Option Busy → Type 0
BusyIsValid channels none = Unit
BusyIsValid channels (some b) = mem b.cid channels ≡ true

pub record IsValid (h : Hid) : Type 0 where
  pub distinct : Distinct h.channels
  pub capped : length h.channels ≤ 64
  pub not_zero : mem 0 h.channels ≡ false
  pub not_broadcast : mem broadcast h.channels ≡ false
  pub exclusive : (is_some h.busy && is_some h.fragment) ≡ false
  pub fragment_valid : FragmentIsValid h.channels h.fragment
  pub busy_valid : BusyIsValid h.channels h.busy

-- the outcome of a method
abbrev pub Good : Hid × List Effect → Type 0
Good (h, es) = IsValid h × AllProper es

pub empty-IsValid : IsValid empty
empty-IsValid = ground arith

pub touch-IsValid :
    (cid : ℕ) (h : Hid) → mem cid h.channels ≡ true → IsValid h → IsValid (touch cid h)
touch-IsValid cid h m v = record {
  distinct = move_to_end-Distinct cid h.channels v.distinct;
  capped = omega (arith, v.capped, length-move_to_end cid h.channels m);
  not_zero = mem-move_to_end 0 cid h.channels m ∙ v.not_zero;
  not_broadcast = mem-move_to_end broadcast cid h.channels m ∙ v.not_broadcast;
  exclusive = v.exclusive;
  fragment_valid = fragment_touched h.fragment v.fragment_valid;
  busy_valid = busy_touched h.busy v.busy_valid;
}
  where
    fragment_touched :
        (o : Option Fragment)
        → FragmentIsValid h.channels o
        → FragmentIsValid (move_to_end cid h.channels) o
    fragment_touched none p = tt
    fragment_touched (some f) p = (mem-move_to_end f.cid cid h.channels m ∙ p.0, p.1, p.2)

    busy_touched :
        (o : Option Busy) → BusyIsValid h.channels o → BusyIsValid (move_to_end cid h.channels) o
    busy_touched none p = tt
    busy_touched (some b) p = mem-move_to_end b.cid cid h.channels m ∙ p

pub drop_fragment-IsValid : (h : Hid) → IsValid h → IsValid (record h { fragment = none })
drop_fragment-IsValid h v = ground arith

pub drop_busy-IsValid : (h : Hid) → IsValid h → IsValid (record h { busy = none })
drop_busy-IsValid h v = ground arith

pub abort-Good : (respond : Bool) (h : Hid) → IsValid h → Good (abort respond h)
unfolding abort
abort-Good respond h v = elim (Option-cases h.busy) [
  | inl e ↦ ground (arith)
  | inr (b, e) ↦ ground (arith, send-AllProper b.cid cbor_ (0x2d ∷ []))
]

-- The end of `receive` on a part that does not exceed its announced size.
pub assemble-Good :
    (draw : Draw) (cid : ℕ) (h : Hid) (f : Fragment)
    → IsValid h
    → h.busy ≡ none
    → mem cid h.channels ≡ true
    → f.cid ≡ cid
    → length f.body ≤ f.size
    → f.size ≤ max_message
    → Good (assemble draw cid (record h { fragment = some f }))
unfolding assemble
assemble-Good draw cid h f v idle m same le cap =
    ground (arith, send-AllProper cid ping_ f.body, error-AllProper cid 0x03)
