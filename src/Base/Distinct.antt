-- ===== src/Base/Distinct.antt =====
-- Lists of distinct numbers: dict keys in order, and sets.
use ashacky.Base.{
  ◌==◌, Bool-cases, length, length-append, all, find, mem, remove, ℕ, ◌+◌, ◌≤◌, ◌≡◌, refl, ◌≢◌, inl,
  inr, Bool, true, false, ◌||◌, none, some, List, [], ◌∷◌, ◌++◌, arith,
}

abbrev pub Distinct : List ℕ → Type 0
Distinct [] = Unit
Distinct (x ∷ xs) = (mem x xs ≡ false) × Distinct xs

pub mem-append : (k : ℕ) (xs ys : List ℕ) → mem k (xs ++ ys) ≡ (mem k xs || mem k ys)
mem-append k [] ys = refl
mem-append k (x ∷ xs) ys = ground (arith, mem-append k xs ys)

pub mem-remove_ne : (j k : ℕ) (xs : List ℕ) → j ≢ k → mem j (remove k xs) ≡ mem j xs
mem-remove_ne j k [] h = refl
mem-remove_ne j k (x ∷ xs) h = ground (arith, mem-remove_ne j k xs h)

pub mem-remove_absent : (j k : ℕ) (xs : List ℕ) → mem j xs ≡ false → mem j (remove k xs) ≡ false
mem-remove_absent j k [] h = refl
mem-remove_absent j k (x ∷ xs) h = ground (arith, mem-remove_absent j k xs)

pub mem-remove_self : (k : ℕ) (xs : List ℕ) → Distinct xs → mem k (remove k xs) ≡ false
mem-remove_self k [] h = refl
mem-remove_self k (x ∷ xs) h = ground (arith, mem-remove_self k xs h.1)

pub remove-Distinct : (k : ℕ) (xs : List ℕ) → Distinct xs → Distinct (remove k xs)
remove-Distinct k [] h = tt
remove-Distinct k (x ∷ xs) h = ground (arith, remove-Distinct k xs h.1, mem-remove_absent x k xs)

pub length-remove : (k : ℕ) (xs : List ℕ) → mem k xs ≡ true → length (remove k xs) + 1 ≡ length xs
length-remove k [] h = ground arith
length-remove k (x ∷ xs) h = ground (arith, length-remove k xs)

pub length-remove_le : (k : ℕ) (xs : List ℕ) → length (remove k xs) ≤ length xs
length-remove_le k [] = omega arith
length-remove_le k (x ∷ xs) = ground (arith, length-remove_le k xs)

pub Distinct-snoc : (k : ℕ) (xs : List ℕ) → Distinct xs → mem k xs ≡ false → Distinct (xs ++ k ∷ [])
Distinct-snoc k [] h m = (refl, tt)
Distinct-snoc k (x ∷ xs) h m = ground (arith, Distinct-snoc k xs h.1, mem-append x xs (k ∷ []))

pub find_sound :
    (p : ℕ → Bool) (xs : List ℕ) (v : ℕ) → find p xs ≡ some v → (p v ≡ true) × (mem v xs ≡ true)
find_sound p [] v h = ground arith
find_sound p (x ∷ xs) v h = ground (arith, find_sound p xs v)

pub find_nothing :
    (p : ℕ → Bool) (xs : List ℕ) (v : ℕ) → find p xs ≡ none → mem v xs ≡ true → p v ≡ false
find_nothing p [] v h m = ground arith
find_nothing p (x ∷ xs) v h m = elim (Bool-cases (v == x)) [
  | inl e ↦ let same : v ≡ x = ground arith in rw same (ground arith)
  | inr e ↦ ground (arith, find_nothing p xs v)
]

-- Distinct numbers that all occur in a list are no more than its length.
all-mem-remove :
    (d : ℕ) (ds us : List ℕ)
    → mem d ds ≡ false
    → all (λ c. mem c us) ds ≡ true
    → all (λ c. mem c (remove d us)) ds ≡ true
all-mem-remove d [] us n h = refl
all-mem-remove d (x ∷ xs) us n h = ground (arith, all-mem-remove d xs us, mem-remove_ne x d us)

pub pigeonhole :
    (ds us : List ℕ) → Distinct ds → all (λ c. mem c us) ds ≡ true → length ds ≤ length us
pigeonhole [] us d h = omega arith
pigeonhole (x ∷ xs) us d h =
    ground (arith, pigeonhole xs (remove x us) d.1, all-mem-remove x xs us d.0, length-remove x us)

-- `OrderedDict.move_to_end`
abbrev pub move_to_end : ℕ → List ℕ → List ℕ
move_to_end k xs = remove k xs ++ k ∷ []

pub mem-move_to_end :
    (j k : ℕ) (xs : List ℕ) → mem k xs ≡ true → mem j (move_to_end k xs) ≡ mem j xs
mem-move_to_end j k xs m = elim (Bool-cases (j == k)) [
  | inl e ↦
      let same : j ≡ k = ground arith in
      rw same (ground (arith, mem-append k (remove k xs) (k ∷ [])))
  | inr e ↦ ground (arith, mem-append j (remove k xs) (k ∷ []), mem-remove_ne j k xs)
]

pub move_to_end-Distinct : (k : ℕ) (xs : List ℕ) → Distinct xs → Distinct (move_to_end k xs)
move_to_end-Distinct k xs d =
    Distinct-snoc k (remove k xs) (remove-Distinct k xs d) (mem-remove_self k xs d)

pub length-move_to_end :
    (k : ℕ) (xs : List ℕ) → mem k xs ≡ true → length (move_to_end k xs) ≡ length xs
length-move_to_end k xs m =
    omega (arith, length-append (remove k xs) (k ∷ []), length-remove k xs m)

all-mem-weaken :
    (x : ℕ) (ks xs : List ℕ) → all (λ k. mem k xs) ks ≡ true → all (λ k. mem k (x ∷ xs)) ks ≡ true
all-mem-weaken x [] xs h = refl
all-mem-weaken x (k ∷ ks) xs h = ground (arith, all-mem-weaken x ks xs)

pub all-mem : (xs : List ℕ) → all (λ k. mem k xs) xs ≡ true
all-mem [] = refl
all-mem (x ∷ xs) = ground (arith, all-mem-weaken x xs xs (all-mem xs))
