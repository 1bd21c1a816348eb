-- ===== src/Fido/Hid/Channels.antt =====
-- The channel table of `class HID`: allocation and eviction (guest/auth/fido2.py).
use ashacky.Base.Distinct.{
  Distinct, mem-remove_ne, mem-remove_absent, remove-Distinct, length-remove, find_sound,
  pigeonhole,
}
use ashacky.Base.{
  Option-cases, is_some, length, all, find, mem, ℕ, ◌+◌, ◌≤◌, ◌<◌, ◌≡◌, refl, ◌≢◌, inl, inr, Bool,
  true, false, not, ◌&&◌, ◌||◌, none, some, List, [], ◌∷◌, arith,
}
use ashacky.Fido.Packets.{broadcast}
use ashacky.Fido.Hid.State.{Hid, busy_on, fragment_on}
use ashacky.Fido.Hid.Defs.{assign, evict}

-- A new id is not reserved and not in use.
pub assign_fresh :
    (ds channels : List ℕ) (c : ℕ)
    → assign ds channels ≡ some c
    → (c ≢ 0) × (c ≢ broadcast) × (mem c channels ≡ false)
unfolding assign
assign_fresh [] channels c h = absurd (ground arith)
assign_fresh (d ∷ ds) channels c h = ground (arith, assign_fresh ds channels c)

all_used :
    (ds channels : List ℕ)
    → assign ds channels ≡ none
    → all (λ c. mem c (0 ∷ broadcast ∷ channels)) ds ≡ true
unfolding assign
all_used [] channels h = refl
all_used (d ∷ ds) channels h = ground (arith, all_used ds channels)

-- The loop that draws an id ends: of enough distinct draws one is free.
assign_ends :
    (ds channels : List ℕ)
    → Distinct ds
    → length channels + 2 < length ds
    → assign ds channels ≢ none
assign_ends ds channels d h e =
    omega (arith, pigeonhole ds (0 ∷ broadcast ∷ channels) d (all_used ds channels e))

-- With 64 channels one is always free to go: at most one is protected.
two_channels :
    (h : Hid) (x y : ℕ) (r : List ℕ)
    → Distinct (x ∷ y ∷ r)
    → (is_some h.busy ≡ true → h.fragment ≡ none)
    → (busy_on h.busy x || fragment_on h.fragment x)
        && (busy_on h.busy y || fragment_on h.fragment y)
      ≡ false
two_channels h x y r d ex = ground arith

-- the channels that an eviction spares
abbrev pub unprotected : Hid → ℕ → Bool
unprotected h c = not (busy_on h.busy c || fragment_on h.fragment c)

all_protected-le :
    (h : Hid) (xs : List ℕ)
    → Distinct xs
    → (is_some h.busy ≡ true → h.fragment ≡ none)
    → find (unprotected h) xs ≡ none
    → length xs ≤ 1
all_protected-le h [] d ex e = omega arith
all_protected-le h (x ∷ []) d ex e = omega arith
all_protected-le h (x ∷ y ∷ r) d ex e = ground (arith, two_channels h x y r d ex)

-- An eviction leaves room for one more channel.
pub length-evict :
    (h : Hid)
    → Distinct h.channels
    → (is_some h.busy ≡ true → h.fragment ≡ none)
    → length h.channels ≤ 64
    → length (evict h) < 64
unfolding evict
length-evict h d ex cap = elim (Option-cases (find (unprotected h) h.channels)) [
  | inl e ↦ ground (arith, all_protected-le h h.channels d ex e)
  | inr (v, e) ↦
      ground (arith, length-remove v h.channels, find_sound (unprotected h) h.channels v e)
]

pub evict-Distinct : (h : Hid) → Distinct h.channels → Distinct (evict h)
unfolding evict
evict-Distinct h d = elim (Option-cases (find (unprotected h) h.channels)) [
  | inl e ↦ ground arith
  | inr (v, e) ↦ ground (arith, remove-Distinct v h.channels d)
]

-- An eviction brings in no channel, and keeps those of the transactions.
pub mem-evict_absent : (h : Hid) (c : ℕ) → mem c h.channels ≡ false → mem c (evict h) ≡ false
unfolding evict
mem-evict_absent h c m = elim (Option-cases (find (unprotected h) h.channels)) [
  | inl e ↦ ground arith
  | inr (v, e) ↦ ground (arith, mem-remove_absent c v h.channels m)
]

pub mem-evict_protected :
    (h : Hid) (c : ℕ) → unprotected h c ≡ false → mem c h.channels ≡ true → mem c (evict h) ≡ true
unfolding evict
mem-evict_protected h c p m = elim (Option-cases (find (unprotected h) h.channels)) [
  | inl e ↦ ground arith
  | inr (v, e) ↦
      ground (arith, mem-remove_ne c v h.channels, find_sound (unprotected h) h.channels v e)
]
