-- ===== src/Base/Assoc.antt =====
-- Association lists as Python's dicts: a key's value is replaced in place, a new key comes last.
use mathlib.Core.Path.{subst}
use ashacky.Base.{
  if◌then◌else◌, Bool-cases, is_some, ◌≡◌, refl, sym, ap, ◌∙◌, inl, inr, Bool, true, false, ◌||◌,
  Option, none, some, List, [], ◌∷◌, arith,
}

-- equality of keys
pub record KeyEq (K : Type 0) : Type 0 where
  pub same : K → K → Bool
  pub sound : (j k : K) → same j k ≡ true → j ≡ k
  pub reflexive : (k : K) → same k k ≡ true

is_some-none : {V : Type 0} (o : Option V) → is_some o ≡ false → o ≡ none
is_some-none none h = refl
is_some-none (some v) h = ground arith

module _ {K V : Type 0} (q : KeyEq K) where
  abbrev pub lookup : K → List (K × V) → Option V
  lookup k [] = none
  lookup k ((j, v) ∷ es) = let rest = lookup k es in if q.same j k then some v else rest

  abbrev pub has : K → List (K × V) → Bool
  has k es = is_some (lookup k es)

  -- `es[k] = v`
  abbrev pub put : K → V → List (K × V) → List (K × V)
  put k v [] = (k, v) ∷ []
  put k v ((j, w) ∷ es) = let rest = put k v es in if q.same j k then (j, v) ∷ es else (j, w) ∷ rest

  -- `es.pop(k)`, of a key that is there or not
  abbrev pub erase : K → List (K × V) → List (K × V)
  erase k [] = []
  erase k ((j, w) ∷ es) = let rest = erase k es in if q.same j k then rest else (j, w) ∷ rest

  -- one entry after the other
  abbrev pub puts : List (K × V) → List (K × V) → List (K × V)
  puts [] es = es
  puts ((k, v) ∷ cs) es = puts cs (put k v es)

  abbrev pub HasKeysOnce : List (K × V) → Type 0
  HasKeysOnce [] = Unit
  HasKeysOnce ((k, v) ∷ es) = (has k es ≡ false) × HasKeysOnce es

  pub lookup-put_self : (k : K) (v : V) (es : List (K × V)) → lookup k (put k v es) ≡ some v
  lookup-put_self k v [] = rw (q.reflexive k) refl
  lookup-put_self k v ((j, w) ∷ es) = elim (Bool-cases (q.same j k)) [
    | inl y ↦ rw (y, y) refl
    | inr n ↦ rw (n, n) (lookup-put_self k v es)
  ]

  pub lookup-put_ne :
      (i k : K) (v : V) (es : List (K × V))
      → q.same k i ≡ false
      → lookup i (put k v es) ≡ lookup i es
  lookup-put_ne i k v [] n = rw n refl
  lookup-put_ne i k v ((j, w) ∷ es) n = elim (Bool-cases (q.same j k)) [
    | inl y ↦
        let m : q.same j i ≡ false = subst (λ x. q.same x i ≡ false) (sym (q.sound j k y)) n in
        rw (y, m) refl
    | inr y ↦ elim (Bool-cases (q.same j i)) [
      | inl z ↦ rw (y, z) refl
      | inr z ↦ rw (y, z) (lookup-put_ne i k v es n)
    ]
  ]

  pub lookup-erase_self : (k : K) (es : List (K × V)) → lookup k (erase k es) ≡ none
  lookup-erase_self k [] = refl
  lookup-erase_self k ((j, w) ∷ es) = elim (Bool-cases (q.same j k)) [
    | inl y ↦ rw y (lookup-erase_self k es)
    | inr n ↦ rw (n, n) (lookup-erase_self k es)
  ]

  pub lookup-erase_ne :
      (i k : K) (es : List (K × V)) → q.same k i ≡ false → lookup i (erase k es) ≡ lookup i es
  lookup-erase_ne i k [] n = refl
  lookup-erase_ne i k ((j, w) ∷ es) n = elim (Bool-cases (q.same j k)) [
    | inl y ↦
        let m : q.same j i ≡ false = subst (λ x. q.same x i ≡ false) (sym (q.sound j k y)) n in
        rw (y, m) (lookup-erase_ne i k es n)
    | inr y ↦ elim (Bool-cases (q.same j i)) [
      | inl z ↦ rw (y, z) refl
      | inr z ↦ rw (y, z) (lookup-erase_ne i k es n)
    ]
  ]

  pub put-HasKeysOnce :
      (k : K) (v : V) (es : List (K × V)) → HasKeysOnce es → HasKeysOnce (put k v es)
  put-HasKeysOnce k v [] h = (refl, tt)
  put-HasKeysOnce k v ((j, w) ∷ es) h = elim (Bool-cases (q.same j k)) [
    | inl y ↦ rw y h
    | inr n ↦
        let other : q.same k j ≡ false = elim (Bool-cases (q.same k j)) [
          | inl z ↦
              let back : q.same j k ≡ true =
                subst (λ x. q.same x k ≡ true) (q.sound k j z) (q.reflexive k) in
              absurd (ground arith)
          | inr z ↦ z
        ] in
        rw n (ap is_some (lookup-put_ne j k v es other) ∙ h.0, put-HasKeysOnce k v es h.1)
  ]

  pub puts-HasKeysOnce : (cs es : List (K × V)) → HasKeysOnce es → HasKeysOnce (puts cs es)
  puts-HasKeysOnce [] es h = h
  puts-HasKeysOnce ((k, v) ∷ cs) es h = puts-HasKeysOnce cs (put k v es) (put-HasKeysOnce k v es h)

  abbrev pub or_else : Option V → Option V → Option V
  or_else none w = w
  or_else (some v) w = some v

  -- The entries put, of keys that differ, hide what was there.
  pub lookup-puts :
      (k : K) (cs es : List (K × V))
      → HasKeysOnce cs
      → lookup k (puts cs es) ≡ or_else (lookup k cs) (lookup k es)
  lookup-puts k [] es h = refl
  lookup-puts k ((j, v) ∷ cs) es h = elim (Bool-cases (q.same j k)) [
    | inl y ↦
        let e = q.sound j k y in
        let gone : lookup k cs ≡ none =
          subst (λ x. lookup x cs ≡ none) e (is_some-none (lookup j cs) h.0) in
        let here : lookup k (put j v es) ≡ some v =
          subst (λ x. lookup x (put j v es) ≡ some v) e (lookup-put_self j v es) in
        rw (y, lookup-puts k cs (put j v es) h.1, gone, here) refl
    | inr n ↦
        rw n (
          lookup-puts k cs (put j v es) h.1 ∙ ap (or_else (lookup k cs)) (lookup-put_ne k j v es n))
  ]

  pub has-put :
      (j k : K) (v : V) (es : List (K × V)) → has k (put j v es) ≡ (q.same j k || has k es)
  has-put j k v es = elim (Bool-cases (q.same j k)) [
    | inl y ↦
        let here : lookup k (put j v es) ≡ some v =
          subst (λ x. lookup x (put j v es) ≡ some v) (q.sound j k y) (lookup-put_self j v es) in
        rw (y, here) refl
    | inr n ↦ rw (n, lookup-put_ne k j v es n) refl
  ]
