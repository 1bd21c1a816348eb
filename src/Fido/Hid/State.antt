-- ===== src/Fido/Hid/State.antt =====
-- The state of `class HID`, its callbacks, and `send`, `error` and `abort` (guest/auth/fido2.py).
use ashacky.Base.{
  ◌==◌, if◌then◌else◌, Bytes, Error, err, ok, ℕ, Bool, false, Option, none, some, List, [], ◌∷◌,
  map,
}
use ashacky.Fido.Packets.{packets}

abbrev pub ping_ : ℕ
ping_ = 0x81

abbrev pub init_ : ℕ
init_ = 0x86

abbrev pub cbor_ : ℕ
cbor_ = 0x90

abbrev pub cancel_ : ℕ
cancel_ = 0x91

abbrev pub keepalive_ : ℕ
keepalive_ = 0xbb

abbrev pub error_ : ℕ
error_ = 0xbf

-- a message of which reports are still to come
pub record Fragment : Type 0 where
  pub cid : ℕ
  pub cmd : ℕ
  pub size : ℕ
  pub body : Bytes
  pub sequence : ℕ
  pub deadline : ℕ

-- the one request that the host is working on
pub record Busy : Type 0 where
  pub cid : ℕ
  pub request_id : ℕ
  pub deadline : ℕ
  pub keepalive : ℕ

-- `channels` is the ordered dict, the least recently used channel first
pub record Hid : Type 0 where
  pub channels : List ℕ
  pub fragment : Option Fragment
  pub busy : Option Busy

-- a call of one of the three callbacks, or an exception that leaves the method
pub data Effect : Type 0 where
  emit : Bytes → Effect
  request : ℕ → ℕ → Bytes → Effect
  cancel : ℕ → Effect
  raised : Error → Effect

-- what a call reads from outside: the random channel ids that it draws, the fresh request id, and
-- the readings of the clock, in the order of the code
pub record Draw : Type 0 where
  pub randbits : List ℕ
  pub uuid : ℕ
  pub started : ℕ
  pub deadline_base : ℕ
  pub keepalive_base : ℕ

abbrev pub empty : Hid
empty = record { channels = []; fragment = none; busy = none }

unfoldable pub send : ℕ → ℕ → Bytes → List Effect
send cid cmd payload = elim (packets cid cmd payload) [
  | ok ps ↦ map emit ps
  | err e ↦ raised e ∷ []
]

abbrev pub error : ℕ → ℕ → List Effect
error cid code = send cid error_ (code ∷ [])

-- `self.busy and self.busy[0] == cid`, `self.fragment and self.fragment['cid'] == cid`
abbrev pub busy_on : Option Busy → ℕ → Bool
busy_on none cid = false
busy_on (some b) cid = b.cid == cid

abbrev pub fragment_on : Option Fragment → ℕ → Bool
fragment_on none cid = false
fragment_on (some f) cid = f.cid == cid

unfoldable pub abort : Bool → Hid → Hid × List Effect
abort respond h = elim h.busy [
  | none ↦ (record h { fragment = none }, [])
  | some b ↦ (
    record h { fragment = none; busy = none },
    cancel b.request_id ∷ (if respond then send b.cid cbor_ (0x2d ∷ []) else []),
  )
]
