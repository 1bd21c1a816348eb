-- ===== src/Audio/Graph/Fresh.antt =====
-- What a snapshot of the graph holds (guest/devices/audio_events.py, `Graph.snapshot`).
use mathlib.Core.Path.{subst}
use ashacky.Base.{
  Bool-cases, Result, >>=-eq-ok, ok_injective, err, ok, ◌≡◌, refl, sym, ap, ◌∙◌, inl, inr, true,
  false, Option, none, some, List, [], ◌∷◌, ◌++◌, arith,
}
use ashacky.Base.Int.{ℤ}
use ashacky.Base.Json.{Json, Fields}
use ashacky.Base.Assoc.{lookup, lookup-put_self, lookup-put_ne, lookup-erase_self, lookup-erase_ne}
use ashacky.Wifi.Events.{ValueEq}
use ashacky.Audio.Graph.{
  same_id, same_id_sound, same_id_self, ids, is_in, discard, Graph, values, fetch, take_metadata,
  after_fetch, fetch_all, snapshot,
}

is_in-discard_self : (i : ℤ) (ds : List ℤ) → is_in i (discard i ds) ≡ false
is_in-discard_self i [] = refl
is_in-discard_self i (j ∷ ds) = elim (Bool-cases (same_id j i)) [
  | inl y ↦ rw y (is_in-discard_self i ds)
  | inr n ↦ rw (n, n) (is_in-discard_self i ds)
]

is_in-discard : (i k : ℤ) (ds : List ℤ) → is_in i ds ≡ false → is_in i (discard k ds) ≡ false
is_in-discard i k [] h = refl
is_in-discard i k (j ∷ ds) h = elim (Bool-cases (same_id j i)) [
  | inl y ↦ ground arith
  | inr n ↦ elim (Bool-cases (same_id j k)) [
    | inl y ↦ ground (arith, is_in-discard i k ds)
    | inr m ↦ ground (arith, is_in-discard i k ds)
  ]
]

is_in-nothing : (ds : List ℤ) → ((i : ℤ) → is_in i ds ≡ false) → ds ≡ []
is_in-nothing [] h = refl
is_in-nothing (d ∷ ds) h =
    let here : is_in d (d ∷ ds) ≡ true = rw (same_id_self d) refl in absurd (cc (here, h d))

module _ {F : Type 0} (q : ValueEq F) (query : ℤ → Result (Json F)) where
  -- `g'` has the answers for `is`, and is `g` otherwise
  abbrev IsFresh : List ℤ → Graph F → Graph F → Type 0
  IsFresh is g g' =
      (g'.nodes ≡ g.nodes)
      × ((i : ℤ) → is_in i g.dirty ≡ false → is_in i g'.dirty ≡ false)
      × ((i : ℤ) → is_in i is ≡ true → is_in i g'.dirty ≡ false)
      × ((i : ℤ) → is_in i is ≡ true → fetch q query i ≡ ok (lookup ids i g'.metadata))
      × ((i : ℤ) → is_in i is ≡ false → lookup ids i g'.metadata ≡ lookup ids i g.metadata)

  take_metadata-keeps :
      (i : ℤ) (c : Option (Fields F)) (g : Graph F)
      → let g' = take_metadata q query i c g in
        (g'.nodes ≡ g.nodes)
        × (g'.dirty ≡ discard i g.dirty)
        × (lookup ids i g'.metadata ≡ c)
        × ((k : ℤ) → same_id i k ≡ false → lookup ids k g'.metadata ≡ lookup ids k g.metadata)
  take_metadata-keeps i none g =
      (refl, refl, lookup-erase_self ids i g.metadata, λ k n. lookup-erase_ne ids k i g.metadata n)
  take_metadata-keeps i (some fs) g = (
    refl,
    refl,
    lookup-put_self ids i fs g.metadata,
    λ k n. lookup-put_ne ids k i fs g.metadata n,
  )

  -- the first of the ids, then the others
  fetch_cons :
      (i : ℤ) (is : List ℤ) (c : Option (Fields F)) (g g' : Graph F)
      → fetch q query i ≡ ok c
      → IsFresh is (take_metadata q query i c g) g'
      → IsFresh (i ∷ is) g g'
  fetch_cons i is c g g' f (n, d, e, m, o) =
      let (n', d', s, r) = take_metadata-keeps i c g in
      let gone : (k : ℤ) → is_in k g.dirty ≡ false → is_in k g'.dirty ≡ false =
        λ k h. d k (rw d' (is_in-discard k i g.dirty h)) in
      let away : is_in i g'.dirty ≡ false = d i (rw d' (is_in-discard_self i g.dirty)) in
      (
        n ∙ n',
        gone,
        λ k h. elim (Bool-cases (same_id i k)) [
          | inl y ↦ subst (λ j. is_in j g'.dirty ≡ false) (same_id_sound i k y) away
          | inr z ↦ e k (ground arith)
        ],
        λ k h. elim (Bool-cases (is_in k is)) [
          | inl y ↦ m k y
          | inr z ↦
              let same : i ≡ k = same_id_sound i k (ground arith) in
              subst (λ j. fetch q query j ≡ ok (lookup ids j g'.metadata)) same
                (f ∙ ap ok (sym (o i (rw same z) ∙ s)))
        ],
        λ k h. o k (ground arith) ∙ r k (ground arith),
      )

  after_fetch-IsFresh :
      (i : ℤ) (is : List ℤ) (r : Result (Option (Fields F))) (g : Graph F)
      (next : Graph F → Graph F × Result (Unit {0}))
      → fetch q query i ≡ r
      → ((h : Graph F) → (next h).1 ≡ ok tt → IsFresh is h (next h).0)
      → (after_fetch q query i r g next).1 ≡ ok tt
      → IsFresh (i ∷ is) g (after_fetch q query i r g next).0
  after_fetch-IsFresh i is (err e) g next f n h = cc
  after_fetch-IsFresh i is (ok c) g next f n h =
      fetch_cons i is c g (next (take_metadata q query i c g)).0 f
        (n (take_metadata q query i c g) h)

  fetch_all-IsFresh :
      (is : List ℤ) (g : Graph F)
      → (fetch_all q query is g).1 ≡ ok tt
      → IsFresh is g (fetch_all q query is g).0
  unfolding fetch_all
  fetch_all-IsFresh [] g h =
      (refl, λ i n. n, λ i n. absurd (cc n), λ i n. absurd (cc n), λ i n. refl)
  fetch_all-IsFresh (i ∷ is) g h =
      after_fetch-IsFresh i is (fetch q query i) g (λ g'. fetch_all q query is g') refl
        (λ g'. fetch_all-IsFresh is g') h

  -- A snapshot that returns leaves nothing to fetch and returns every node and every metadata: of each
  -- object that was to be fetched what the query answers, or nothing when the answer has no such object,
  -- and of each other object what was there.
  pub snapshot_fresh :
      (g : Graph F) (objects : List (Fields F))
      → (snapshot q query g).1 ≡ ok objects
      → let g' = (snapshot q query g).0 in
        (g'.dirty ≡ [])
        × (g'.nodes ≡ g.nodes)
        × (objects ≡ values g.nodes ++ values g'.metadata)
        × ((i : ℤ) → is_in i g.dirty ≡ true → fetch q query i ≡ ok (lookup ids i g'.metadata))
        × ((i : ℤ) → is_in i g.dirty ≡ false → lookup ids i g'.metadata ≡ lookup ids i g.metadata)
  unfolding snapshot
  snapshot_fresh g objects h =
      let (done, o, r) = >>=-eq-ok (fetch_all q query g.dirty g).1 _ h in
      let (n, d, e, m, k) = fetch_all-IsFresh g.dirty g o in
      let g' = (fetch_all q query g.dirty g).0 in
      (
        is_in-nothing g'.dirty
            (λ i. elim (Bool-cases (is_in i g.dirty)) [ inl y ↦ e i y | inr z ↦ d i z ]),
        n,
        sym (ok_injective r) ∙ ap (λ ns. values ns ++ values g'.metadata) n,
        m,
        k,
      )
