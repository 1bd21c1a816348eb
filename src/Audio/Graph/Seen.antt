-- ===== src/Audio/Graph/Seen.antt =====
-- No change of the graph goes unreported (guest/devices/audio_events.py, `Graph.update`).
use mathlib.Core.Path.{subst}
use ashacky.Base.{
  Bool-cases, if-intro, Result, >>=-eq-ok, ok_injective, err, ok, ◌≡◌, refl, sym, ap, ◌∙◌, inl, inr,
  Bool, true, false, not, ◌||◌, Option, none, some, arith,
}
use ashacky.Base.Int.{ℤ}
use ashacky.Base.Json.{Json, Items, Fields, get, nil, cons, end}
use ashacky.Base.Assoc.{
  lookup, has, put, erase, lookup-put_self, lookup-put_ne, lookup-erase_self, lookup-erase_ne,
}
use ashacky.Host.Status.{is_text}
use ashacky.Wifi.Events.{ValueEq}
use ashacky.Audio.Graph.{
  same_id, same_id_sound, ids, Graph, Endpoint, identify, or_end, node_of, is_defaults, relevant,
  endpoint_eq, differs, put_node, put_metadata, drop_metadata, remove_object, update_object,
  update_entry, after_entry, update_batch, update,
}

module _ {F : Type 0} (truth : F → Bool) (q : ValueEq F)
    (trans : (a b c : Option (Json F))
      → q.same a b ≡ true
      → q.same b c ≡ true
      → q.same a c ≡ true) where
  -- two looks at a node show the same endpoint, or none
  abbrev pub seen_eq : Result (Option (Endpoint F)) → Result (Option (Endpoint F)) → Bool
  seen_eq (ok a) (ok b) = endpoint_eq truth q a b
  seen_eq (err d) (err e) = true
  seen_eq _ _ = false

  endpoint_eq_self : (a : Option (Endpoint F)) → endpoint_eq truth q a a ≡ true
  endpoint_eq_self none = refl
  endpoint_eq_self (some a) =
      rw (q.same_self (some a.name), q.same_self (some a.class), q.same_self (some a.levels)) refl

  seen_eq_self : (r : Result (Option (Endpoint F))) → seen_eq r r ≡ true
  seen_eq_self (err e) = refl
  seen_eq_self (ok a) = endpoint_eq_self a

  endpoint_eq_trans :
      (a b c : Option (Endpoint F))
      → endpoint_eq truth q a b ≡ true
      → endpoint_eq truth q b c ≡ true
      → endpoint_eq truth q a c ≡ true
  endpoint_eq_trans none none none h k = refl
  endpoint_eq_trans none none (some c) h k = k
  endpoint_eq_trans none (some b) c h k = cc
  endpoint_eq_trans (some a) none c h k = cc
  endpoint_eq_trans (some a) (some b) none h k = k
  endpoint_eq_trans (some a) (some b) (some c) h k =
      let n = trans (some a.name) (some b.name) (some c.name) (ground arith) (ground arith) in
      let m = trans (some a.class) (some b.class) (some c.class) (ground arith) (ground arith) in
      let l = trans (some a.levels) (some b.levels) (some c.levels) (ground arith) (ground arith) in
      rw (n, m, l) refl

  seen_eq_trans :
      (a b c : Result (Option (Endpoint F)))
      → seen_eq a b ≡ true
      → seen_eq b c ≡ true
      → seen_eq a c ≡ true
  seen_eq_trans (ok a) (ok b) (ok c) h k = endpoint_eq_trans a b c h k
  seen_eq_trans (ok a) (ok b) (err c) h k = k
  seen_eq_trans (ok a) (err b) c h k = cc
  seen_eq_trans (err a) (ok b) c h k = cc
  seen_eq_trans (err a) (err b) (ok c) h k = k
  seen_eq_trans (err a) (err b) (err c) h k = refl

  abbrev pub IsSameGraph : Graph F → Graph F → Type 0
  IsSameGraph g g' =
      ((i : ℤ) → seen_eq (relevant truth (node_of i g)) (relevant truth (node_of i g')) ≡ true)
      × (g'.metadata ≡ g.metadata)
      × (g'.dirty ≡ g.dirty)

  pub IsSameGraph-trans : (a b c : Graph F) → IsSameGraph a b → IsSameGraph b c → IsSameGraph a c
  IsSameGraph-trans a b c (n, m, d) (n', m', d') = (
    λ i.
        seen_eq_trans (relevant truth (node_of i a)) (relevant truth (node_of i b))
          (relevant truth (node_of i c)) (n i) (n' i),
    m' ∙ m,
    d' ∙ d,
  )

  pub IsSameGraph-self : (g : Graph F) → IsSameGraph g g
  IsSameGraph-self g = (λ i. seen_eq_self (relevant truth (node_of i g)), refl, refl)

  differs-seen_eq :
      (old entry : Fields F)
      → differs truth q old entry ≡ ok false
      → seen_eq (relevant truth old) (relevant truth entry) ≡ true
  differs-seen_eq old entry h =
      let (o, r, h') = >>=-eq-ok (relevant truth old) _ h in
      let (n, s, h'') = >>=-eq-ok (relevant truth entry) _ h' in
      let same = ok_injective h'' in rw (r, s) (ground arith)

  -- one node in place of another that looks the same
  lookup-IsSame :
      (i : ℤ) (fs : Fields F) (g g' : Graph F)
      → g'.metadata ≡ g.metadata
      → g'.dirty ≡ g.dirty
      → node_of i g' ≡ fs
      → ((k : ℤ) → same_id i k ≡ false → lookup ids k g'.nodes ≡ lookup ids k g.nodes)
      → seen_eq (relevant truth (node_of i g)) (relevant truth fs) ≡ true
      → IsSameGraph g g'
  lookup-IsSame i fs g g' m d n o s = (
    λ k. elim (Bool-cases (same_id i k)) [
      | inl y ↦
          subst (λ j. seen_eq (relevant truth (node_of j g)) (relevant truth (node_of j g')) ≡ true)
            (same_id_sound i k y) (rw n s)
      | inr z ↦ rw (ap or_end (o k z)) (seen_eq_self (relevant truth (node_of k g)))
    ],
    m,
    d,
  )

  put_node-IsSame :
      (i : ℤ) (fs : Fields F) (g : Graph F) (r : Result Bool)
      → differs truth q (node_of i g) fs ≡ r
      → (put_node truth q i fs g r).1 ≡ ok false
      → IsSameGraph g (put_node truth q i fs g r).0
  put_node-IsSame i fs g (err e) r h = IsSameGraph-self g
  put_node-IsSame i fs g (ok c) r h =
      lookup-IsSame i fs g (record g { nodes = put ids i fs g.nodes }) refl refl
        (ap or_end (lookup-put_self ids i fs g.nodes)) (λ k n. lookup-put_ne ids k i fs g.nodes n)
        (differs-seen_eq (node_of i g) fs (r ∙ h))

  put_metadata-IsSame :
      (i : ℤ) (fs : Fields F) (g : Graph F) (r : Result Bool)
      → (put_metadata truth q i fs g r).1 ≡ ok false
      → IsSameGraph g (put_metadata truth q i fs g r).0
  put_metadata-IsSame i fs g (err e) h = IsSameGraph-self g
  put_metadata-IsSame i fs g (ok false) h = IsSameGraph-self g
  put_metadata-IsSame i fs g (ok true) h = absurd (cc (ok_injective h))

  relevant-end : relevant truth end ≡ ok none
  unfolding relevant
  relevant-end = refl

  drop_metadata-none :
      (i : ℤ) (g : Graph F) (r : Result (Option (Endpoint F)))
      → (drop_metadata truth q i g r).1 ≡ ok false
      → (r ≡ ok none) × ((drop_metadata truth q i g r).0 ≡ g)
  drop_metadata-none i g (err e) h = cc
  drop_metadata-none i g (ok none) h = elim (Bool-cases (has ids i g.metadata)) [
    | inl y ↦ ground arith
    | inr n ↦ ground arith
  ]
  drop_metadata-none i g (ok (some o)) h = elim (Bool-cases (has ids i g.metadata)) [
    | inl y ↦ ground arith
    | inr n ↦ ground arith
  ]

  remove_object-IsSame :
      (i : ℤ) (g : Graph F)
      → (remove_object truth q i g).1 ≡ ok false
      → IsSameGraph g (remove_object truth q i g).0
  remove_object-IsSame i g h =
      let erased : Graph F = record g { nodes = erase ids i g.nodes } in
      let (r, s) = drop_metadata-none i erased (relevant truth (node_of i g)) h in
      subst (λ g'. IsSameGraph g g') (sym s)
        (lookup-IsSame i end g erased refl refl (ap or_end (lookup-erase_self ids i g.nodes))
          (λ k n. lookup-erase_ne ids k i g.nodes n) (rw (r, relevant-end) refl))

  -- a step that reports no change leaves the graph the same
  abbrev IsQuiet : Graph F → Graph F × Result Bool → Type 0
  IsQuiet g p = p.1 ≡ ok false → IsSameGraph g p.0

  update_object-IsSame :
      (i : ℤ) (fs : Fields F) (g : Graph F) → IsQuiet g (update_object truth q i fs g)
  unfolding update_object
  update_object-IsSame i fs g =
      if-intro (IsQuiet g) (is_text "PipeWire:Interface:Node" (get "type" fs)) _ _
        (put_node-IsSame i fs g (differs truth q (node_of i g) fs) refl)
        (if-intro (IsQuiet g) (is_text "PipeWire:Interface:Metadata" (get "type" fs)) _ _
          (put_metadata-IsSame i fs g (is_defaults fs))
          (if-intro (IsQuiet g) _ _ _ (remove_object-IsSame i g) (λ h. IsSameGraph-self g)))

  update_entry-IsSame :
      (r : Result (ℤ × Fields F)) (g : Graph F) → IsQuiet g (update_entry truth q r g)
  update_entry-IsSame (err e) g h = IsSameGraph-self g
  update_entry-IsSame (ok (i, fs)) g h = update_object-IsSame i fs g h

  -- no later entry takes back the report of a change
  abbrev IsQuietNext : (Bool → Graph F → Graph F × Result Bool) → Type 0
  IsQuietNext next =
      (c : Bool) (g : Graph F) → (next c g).1 ≡ ok false → (c ≡ false) × IsSameGraph g (next c g).0

  after_entry-IsSame :
      (changed : Bool) (g : Graph F) (p : Graph F × Result Bool)
      (next : Bool → Graph F → Graph F × Result Bool)
      → IsQuiet g p
      → IsQuietNext next
      → (after_entry truth q changed p next).1 ≡ ok false
      → (changed ≡ false) × IsSameGraph g (after_entry truth q changed p next).0
  after_entry-IsSame changed g (g', err e) next s n h = cc
  after_entry-IsSame changed g (g', ok c) next s n h =
      let (o, t) = n (changed || c) g' h in
      let quiet : c ≡ false = ground arith in
      (ground arith, IsSameGraph-trans g g' (next (changed || c) g').0 (s (ap ok quiet)) t)

  update_batch-IsSame : (xs : Items F) → IsQuietNext (update_batch truth q xs)
  unfolding update_batch
  update_batch-IsSame nil c g h = (ok_injective h, IsSameGraph-self g)
  update_batch-IsSame (cons x xs) c g h =
      after_entry-IsSame c g (update_entry truth q (identify x) g)
        (λ c' g'. update_batch truth q xs c' g') (update_entry-IsSame (identify x) g)
        (update_batch-IsSame xs) h

  pub update-IsSameGraph :
      (batch : Items F) (g : Graph F)
      → (update truth q batch g).1 ≡ ok false
      → (g.ready ≡ true) × IsSameGraph g (update truth q batch g).0
  unfolding update
  update-IsSameGraph batch g h =
      let (r, s) = update_batch-IsSame batch (not g.ready) (record g { ready = true }) h in
      (ground arith, s)
