-- ===== src/Trackpad/Contacts.antt =====
-- A frame of at most ten distinct contacts always finds its slots (guest/input/trackpad.py,
-- `Pad.frame`).
use ashacky.Base.{
  ◌==◌, Bool-cases, Option-cases, length, all, mem, ℕ, ◌≤◌, ◌<◌, ◌≡◌, refl, ap, ◌≢◌, inl, inr, true,
  false, ◌||◌, Option, some, List, [], ◌∷◌, ◌++◌, arith,
}
use ashacky.Base.Distinct.{mem-append, pigeonhole, all-mem}
use ashacky.Trackpad.Frame.{UnitFloat, Point, idents}
use ashacky.Trackpad.Pad.{
  Write, Pad, keys, slot_of, release_gone, free_slot, positions, place, place_all, pointer,
  key_writes, frame, mt_slot, mt_tracking_id, abs, release,
}
use ashacky.Trackpad.Slots.{
  Slots, IsValid, release_gone-keys, release_gone-in_range, release_gone-Distinct-keys,
  release_gone-Distinct-values, slot_of-none, slot_of-append_ne, keys-append, all-append,
  free_slot_found, free_slot_lem, add-IsValid,
}

-- The contacts are among those of the frame.
abbrev Among : List ℕ → Slots → Type 0
Among ids s = all (λ k. mem k ids) (keys s) ≡ true

release_gone-IsValid : (ids : List ℕ) (s : Slots) → IsValid s → IsValid (release_gone ids s).0
release_gone-IsValid ids s v = record {
  one_each = release_gone-Distinct-keys ids s v.one_each;
  no_sharing = release_gone-Distinct-values ids s v.no_sharing;
  in_range = release_gone-in_range ids s v.in_range;
}

release_gone-Among : (ids : List ℕ) (s : Slots) → Among ids (release_gone ids s).0
unfolding release_gone
release_gone-Among ids [] = refl
release_gone-Among ids ((k, n) ∷ s) = ground (arith, release_gone-Among ids s)

release_gone-slot :
    (ids : List ℕ) (k : ℕ) (s : Slots)
    → mem k ids ≡ true
    → slot_of k (release_gone ids s).0 ≡ slot_of k s
unfolding release_gone
release_gone-slot ids k [] m = refl
release_gone-slot ids k ((j, n) ∷ s) m = elim (Bool-cases (k == j)) [
  | inl e ↦ let same : j ≡ k = ground arith in rw same (ground arith)
  | inr e ↦ ground (arith, release_gone-slot ids k s m)
]

room :
    (ids : List ℕ) (s : Slots) (k : ℕ)
    → IsValid s
    → Among ids s
    → mem k ids ≡ true
    → length ids ≤ 10
    → mem k (keys s) ≡ false
    → length (keys s) < 10
room ids s k v a m ten new =
    omega (arith, pigeonhole (k ∷ keys s) ids (new, v.one_each) (ground arith))

slot_of-some : (k n : ℕ) (s : Slots) → slot_of k s ≡ some n → mem k (keys s) ≡ true
slot_of-some k n [] h = ground arith
slot_of-some k n ((j, m) ∷ s) h = ground (arith, slot_of-some k n s)

mem_absorb : (j k : ℕ) (xs : List ℕ) → mem k xs ≡ true → mem j xs ≡ (mem j xs || mem j (k ∷ []))
mem_absorb j k xs m = elim (Bool-cases (j == k)) [
  | inl e ↦ let same : j ≡ k = ground arith in rw (same, m) refl
  | inr e ↦ ground arith
]

mem_differs : (j k : ℕ) (xs : List ℕ) → mem j xs ≡ true → mem k xs ≡ false → j ≢ k
mem_differs j k xs m n same = cc (ap (λ i. mem i xs) same)

-- What placing some contacts comes to: the new ones are there, the old ones keep their slots.
abbrev Placed : List ℕ → Slots → List ℕ → Option (Slots × List Write) → Type 0
Placed ids s news o =
    (s' : Slots) × (ws : List Write) × (o ≡ some (s', ws))
    × IsValid s'
    × Among ids s'
    × ((j : ℕ) → mem j (keys s') ≡ (mem j (keys s) || mem j news))
    × ((j : ℕ) → mem j (keys s) ≡ true → slot_of j s' ≡ slot_of j s)

module _ {F : Type 0} (u : UnitFloat F) where
  place-Placed :
      (ids : List ℕ) (p : Point F) (s : Slots)
      → length ids ≤ 10
      → mem p.ident ids ≡ true
      → IsValid s
      → Among ids s
      → Placed ids s (p.ident ∷ []) (place u p s)
  unfolding place
  place-Placed ids p s ten m v a = elim (Option-cases (slot_of p.ident s)) [
    | inr (n, e) ↦ (
      s,
      abs mt_slot n ∷ positions u p,
      ground arith,
      v,
      a,
      λ j. mem_absorb j p.ident (keys s) (slot_of-some p.ident n s e),
      λ j _. refl,
    )
    | inl e ↦
        let new = slot_of-none p.ident s e in
        elim (Option-cases (free_slot s)) [
          | inl full ↦ absurd (free_slot_found s (room ids s p.ident v a m ten new) full)
          | inr (n, free) ↦ (
            s ++ (p.ident, n) ∷ [],
            abs mt_slot n ∷ abs mt_tracking_id p.ident ∷ positions u p,
            ground arith,
            add-IsValid p.ident n s v new (free_slot_lem s n free),
            rw (keys-append p.ident n s)
                (ground (arith, all-append (λ k. mem k ids) (keys s) (p.ident ∷ []))),
            λ j. rw (keys-append p.ident n s) (mem-append j (keys s) (p.ident ∷ [])),
            λ j old. slot_of-append_ne j p.ident n s (mem_differs j p.ident (keys s) old new),
          )
        ]
  ]

  place_all-Placed :
      (ids : List ℕ) (ps : List (Point F)) (s : Slots)
      → length ids ≤ 10
      → all (λ k. mem k ids) (idents u ps) ≡ true
      → IsValid s
      → Among ids s
      → Placed ids s (idents u ps) (place_all u ps s)
  unfolding place_all
  place_all-Placed ids [] s ten m v a = (s, [], refl, v, a, (λ j. ground arith), (λ j _. refl))
  place_all-Placed ids (p ∷ ps) s ten m v a =
      let (s', ws, e, v', a', k', o') = place-Placed ids p s ten (ground arith) v a in
      let (s'', vs, f, v'', a'', k'', o'') = place_all-Placed ids ps s' ten (ground arith) v' a' in
      (
        s'',
        ws ++ vs,
        rw (place_all, e) (rw f),
        v'',
        a'',
        (λ j. ground (arith, k' j, k'' j)),
        (λ j old. ground (arith, o' j, o'' j, k' j)),
      )

  -- The outcome of a frame: the pad and the writes, with what they promise of the slots.
  framed :
      (ps : List (Point F)) (b : ℕ) (pad : Pad)
      → length (idents u ps) ≤ 10
      → IsValid pad.slots
      → (pad' : Pad) × (ws : List Write) × (frame u ps b pad ≡ some (pad', ws))
        × IsValid pad'.slots
        × ((j : ℕ) → mem j (keys pad'.slots) ≡ mem j (idents u ps))
        × ((j : ℕ)
            → mem j (keys pad.slots) ≡ true
            → mem j (idents u ps) ≡ true
            → slot_of j pad'.slots ≡ slot_of j pad.slots)
        × (pad'.buttons ≡ b)
  unfolding frame
  framed ps b pad ten v =
      let ids = idents u ps in
      let kept = (release_gone ids pad.slots).0 in
      let (s, vs, e, v', a', k, o) =
        place_all-Placed ids ps kept ten (all-mem ids) (release_gone-IsValid ids pad.slots v)
          (release_gone-Among ids pad.slots) in
      (
        record { slots = s; buttons = b },
        (release_gone ids pad.slots).1 ++ (vs ++ (pointer u ps ++ key_writes u ps b)),
        rw (frame, e) refl,
        v',
        (λ j. ground (arith, k j, release_gone-keys ids j pad.slots)),
        (λ j old m.
            ground
              (arith, o j, release_gone-keys ids j pad.slots, release_gone-slot ids j pad.slots m)),
        refl,
      )

  -- From a valid slot table, a frame of at most ten contacts never runs out of slots. The new table
  -- is valid again (distinct contacts on distinct slots below 10), holds exactly the contacts of the
  -- frame, and the buttons are those of the frame.
  pub frame-contacts :
      (ps : List (Point F)) (b : ℕ) (pad : Pad)
      → length (idents u ps) ≤ 10
      → IsValid pad.slots
      → (pad' : Pad) × (ws : List Write) × (frame u ps b pad ≡ some (pad', ws))
        × IsValid pad'.slots
        × ((j : ℕ) → mem j (keys pad'.slots) ≡ mem j (idents u ps))
        × (pad'.buttons ≡ b)
  frame-contacts ps b pad ten v =
      let (pad', ws, e, v', k, o, same) = framed ps b pad ten v in (pad', ws, e, v', k, same)

  -- A contact of a frame that was on the pad before keeps its slot: the frame, of at most ten contacts
  -- and from a valid slot table, never moves it.
  frame-slot_of :
      (ps : List (Point F)) (b j : ℕ) (pad : Pad)
      → length (idents u ps) ≤ 10
      → IsValid pad.slots
      → mem j (keys pad.slots) ≡ true
      → mem j (idents u ps) ≡ true
      → (pad' : Pad) × (ws : List Write) × (frame u ps b pad ≡ some (pad', ws))
        × (slot_of j pad'.slots ≡ slot_of j pad.slots)
  frame-slot_of ps b j pad ten v old m =
      let (pad', ws, e, v', k, o, same) = framed ps b pad ten v in (pad', ws, e, o j old m)

-- The writes that give up every contact.
abbrev pub releases : Slots → List Write
releases [] = []
releases ((_, n) ∷ s) = abs mt_slot n ∷ release ∷ releases s

release_gone-none : (s : Slots) → release_gone [] s ≡ ([], releases s)
unfolding release_gone
release_gone-none [] = refl
release_gone-none ((k, n) ∷ s) = rw (release_gone-none s)

-- The empty frame never fails: it gives up every slot that is in use, in order, lifts the touch, the
-- tools and the buttons, and leaves no contact and no button.
pub frame-empty :
    {F : Type 0} (u : UnitFloat F) (pad : Pad)
    → frame u [] 0 pad
      ≡ some (record { slots = []; buttons = 0 }, releases pad.slots ++ key_writes u [] 0)
unfolding frame place_all
frame-empty u pad = rw (release_gone-none pad.slots)
