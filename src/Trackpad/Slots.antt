-- ===== src/Trackpad/Slots.antt =====
-- The slot table of `class Pad` (guest/input/trackpad.py): a slot for each contact, and no two alike.
use ashacky.Base.{
  ltb, ◌==◌, Bool-cases, length, all, find, mem, ℕ, suc, ◌<◌, ◌≡◌, refl, ap, ◌≢◌, inl, inr, Bool,
  true, false, not, ◌&&◌, none, some, List, [], ◌∷◌, ◌++◌, arith,
}
use ashacky.Base.Distinct.{Distinct, Distinct-snoc, find_sound, pigeonhole}
use ashacky.Trackpad.Pad.{keys, values, slot_of, release_gone, all_slots, free_slot}

abbrev pub Slots : Type 0
Slots = List (ℕ × ℕ)

-- Contacts are distinct, and so are their slots, which lie in 0 to 9.
pub record IsValid (s : Slots) : Type 0 where
  pub one_each : Distinct (keys s)
  pub no_sharing : Distinct (values s)
  pub in_range : all (λ n. ltb n 10) (values s) ≡ true

length-keys : (s : Slots) → length (keys s) ≡ length (values s)
length-keys [] = refl
length-keys (e ∷ s) = ap suc (length-keys s)

pub release_gone-keys :
    (ids : List ℕ) (k : ℕ) (s : Slots)
    → mem k (keys (release_gone ids s).0) ≡ (mem k (keys s) && mem k ids)
unfolding release_gone
release_gone-keys ids k [] = refl
release_gone-keys ids k ((j, n) ∷ s) = elim (Bool-cases (k == j)) [
  | inl e ↦ let same : j ≡ k = ground arith in rw same (ground (arith, release_gone-keys ids k s))
  | inr e ↦ ground (arith, release_gone-keys ids k s)
]

release_gone-values :
    (ids : List ℕ) (n : ℕ) (s : Slots)
    → mem n (values s) ≡ false
    → mem n (values (release_gone ids s).0) ≡ false
unfolding release_gone
release_gone-values ids n [] h = refl
release_gone-values ids n ((j, m) ∷ s) h = ground (arith, release_gone-values ids n s)

pub release_gone-in_range :
    (ids : List ℕ) (s : Slots)
    → all (λ n. ltb n 10) (values s) ≡ true
    → all (λ n. ltb n 10) (values (release_gone ids s).0) ≡ true
unfolding release_gone
release_gone-in_range ids [] h = refl
release_gone-in_range ids ((j, m) ∷ s) h = ground (arith, release_gone-in_range ids s)

pub release_gone-Distinct-keys :
    (ids : List ℕ) (s : Slots) → Distinct (keys s) → Distinct (keys (release_gone ids s).0)
unfolding release_gone
release_gone-Distinct-keys ids [] h = tt
release_gone-Distinct-keys ids ((j, m) ∷ s) h =
    ground (arith, release_gone-Distinct-keys ids s, release_gone-keys ids j s)

pub release_gone-Distinct-values :
    (ids : List ℕ) (s : Slots) → Distinct (values s) → Distinct (values (release_gone ids s).0)
unfolding release_gone
release_gone-Distinct-values ids [] h = tt
release_gone-Distinct-values ids ((j, m) ∷ s) h =
    ground (arith, release_gone-Distinct-values ids s, release_gone-values ids m s)

pub slot_of-none : (k : ℕ) (s : Slots) → slot_of k s ≡ none → mem k (keys s) ≡ false
slot_of-none k [] h = refl
slot_of-none k ((j, n) ∷ s) h = ground (arith, slot_of-none k s)

pub slot_of-append_ne : (j k n : ℕ) (s : Slots) → j ≢ k → slot_of j (s ++ (k, n) ∷ []) ≡ slot_of j s
slot_of-append_ne j k n [] h = ground arith
slot_of-append_ne j k n ((i, m) ∷ s) h = ground (arith, slot_of-append_ne j k n s)

pub keys-append : (k n : ℕ) (s : Slots) → keys (s ++ (k, n) ∷ []) ≡ keys s ++ k ∷ []
keys-append k n [] = refl
keys-append k n ((j, m) ∷ s) = ap (λ t. j ∷ t) (keys-append k n s)

values-append : (k n : ℕ) (s : Slots) → values (s ++ (k, n) ∷ []) ≡ values s ++ n ∷ []
values-append k n [] = refl
values-append k n ((j, m) ∷ s) = ap (λ t. m ∷ t) (values-append k n s)

pub all-append : (p : ℕ → Bool) (xs ys : List ℕ) → all p (xs ++ ys) ≡ (all p xs && all p ys)
all-append p [] ys = refl
all-append p (x ∷ xs) ys = ground (arith, all-append p xs ys)

-- A number that a test takes out of the list of slots.
all_taken :
    (p : ℕ → Bool) (ns vs : List ℕ)
    → find (λ n. not (mem n vs)) ns ≡ none
    → all (λ n. mem n vs) ns ≡ true
all_taken p [] vs h = refl
all_taken p (n ∷ ns) vs h = ground (arith, all_taken p ns vs)

-- With fewer than ten contacts a slot is free.
pub free_slot_found : (s : Slots) → length (keys s) < 10 → free_slot s ≢ none
unfolding free_slot
free_slot_found s h e = omega (
  arith,
  length-keys s,
  pigeonhole all_slots (values s) (ground arith) (all_taken (λ _. true) all_slots (values s) e),
)

all_slots_small : (n : ℕ) → mem n all_slots ≡ true → ltb n 10 ≡ true
all_slots_small n h = ground arith

pub free_slot_lem :
    (s : Slots) (n : ℕ) → free_slot s ≡ some n → (mem n (values s) ≡ false) × (ltb n 10 ≡ true)
unfolding free_slot
free_slot_lem s n h =
    let (free, listed) = find_sound (λ m. not (mem m (values s))) all_slots n h in
    (ground arith, all_slots_small n listed)

-- A new contact in a free slot.
pub add-IsValid :
    (k n : ℕ) (s : Slots)
    → IsValid s
    → mem k (keys s) ≡ false
    → (mem n (values s) ≡ false) × (ltb n 10 ≡ true)
    → IsValid (s ++ (k, n) ∷ [])
add-IsValid k n s v new free = record {
  one_each = rw (keys-append k n s) (Distinct-snoc k (keys s) v.one_each new);
  no_sharing = rw (values-append k n s) (Distinct-snoc n (values s) v.no_sharing free.0);
  in_range =
      rw (values-append k n s)
        (ground (arith, all-append (λ m. ltb m 10) (values s) (n ∷ []), v.in_range, free));
}
