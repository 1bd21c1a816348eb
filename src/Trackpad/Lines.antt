-- ===== src/Trackpad/Lines.antt =====
-- What the input of the touchpad service can bring about (guest/input/trackpad.py, `serve`).
use mathlib.Core.Path.{subst}
use ashacky.Base.{
  ltb, Bool-cases, Option-cases, length, Bytes, Result, ◌>>=◌, >>=-eq-ok, outcome, ok, err, ℕ, zero,
  suc, ◌+◌, ◌≤◌, ◌<◌, ◌≡◌, refl, sym, ap, inl, inr, Bool, true, false, none, some, List, [], ◌∷◌,
  ◌++◌, arith,
}
use ashacky.Base.Json.{Json}
use ashacky.Trackpad.Frame.{UnitFloat, Point, points, validate, idents}
use ashacky.Trackpad.Pad.{Write, Pad, keys, frame}
use ashacky.Trackpad.Slots.{IsValid}
use ashacky.Trackpad.Contacts.{frame-contacts}
use ashacky.Trackpad.Checks.{validate_sound}
use ashacky.Trackpad.Serve.{
  Loop, Reply, Output, split_line, acknowledge, submit, handle_line, lines, feed, sent, would_block,
  failed, frame_writes,
}
use ashacky.Trackpad.Held.{Sound, no_contacts, submit_empty}

split_line-le :
    (buf line more : Bytes) → split_line buf ≡ some (line, more) → length more < length buf
unfolding split_line
split_line-le [] line more h = ground arith
split_line-le (c ∷ cs) line more h = elim (Option-cases (split_line cs)) [
  | inl e ↦ ground arith
  | inr ((l, m), e) ↦ ground (arith, split_line-le cs l m e)
]

length-idents :
    {F : Type 0} (u : UnitFloat F) (ps : List (Point F)) → length (idents u ps) ≡ length ps
length-idents u [] = refl
length-idents u (p ∷ ps) = ap suc (length-idents u ps)

acknowledge-Sound :
    (touched : Bool) (reply : Reply) (l : Loop) (out : List Output)
    → IsValid l.pad.slots
    → Sound (acknowledge touched reply l out)
unfolding acknowledge
acknowledge-Sound false reply l out v = v
acknowledge-Sound true sent l out v = v
acknowledge-Sound true would_block l out v = v
acknowledge-Sound true failed l out v = λ e. cc

-- The outputs of two steps, one after the other.
abbrev joined : List Output → Result (Loop × List Output) → Result (Loop × List Output)
joined out m = m >>= λ s. ok (s.0, out ++ s.1)

joined-Sound :
    (out : List Output) (m : Result (Loop × List Output)) → Sound m → Sound (joined out m)
joined-Sound out (ok s) h = h
joined-Sound out (err e) h = h

then-Sound :
    (m : Result (Loop × List Output)) (n : Loop → Result (Loop × List Output))
    → Sound m
    → ((l : Loop) → IsValid l.pad.slots → Sound (n l))
    → Sound (m >>= λ r. joined r.1 (n r.0))
then-Sound (ok (l, out)) n h k = joined-Sound out (n l) (k l h)
then-Sound (err e) n h k = h

no_line : (b : Bytes) → length b ≤ 0 → split_line b ≡ none
unfolding split_line
no_line [] h = refl
no_line (c ∷ cs) h = absurd (omega arith)

module _ {F : Type 0} (u : UnitFloat F) (loads : Bytes → Result (Json F)) where
  submit_ok :
      (ps : List (Point F)) (b : ℕ) (l : Loop) (pad : Pad) (ws : List Write)
      → frame u ps b l.pad ≡ some (pad, ws)
      → submit u ps b l ≡ ok (record l { pad = pad }, frame_writes ws ∷ [])
  submit_ok ps b l pad ws e = rw (e, submit)

  handle_line-Sound :
      (line : Bytes) (now : ℕ) (reply : Reply) (l : Loop)
      → IsValid l.pad.slots
      → Sound (handle_line u loads line now reply l)
  unfolding handle_line
  handle_line-Sound line now reply l v = elim (outcome (loads line >>= validate u)) [
    | inr (e, bad) ↦ rw (handle_line, bad) (subst Sound (sym (submit_empty u l)) no_contacts)
    | inl ((ps, b), good) ↦
        let (w, parsed, valid) = >>=-eq-ok (loads line) (validate u) good in
        let (points, distinct, ten, buttons) = validate_sound u w ps b valid in
        let (pad, ws, framed, v', keys, b') =
          frame-contacts u ps b l.pad (omega (arith, length-idents u ps)) v in
        rw (handle_line, good, submit_ok ps b l pad ws framed)
          (acknowledge-Sound (ltb 0 (length ps)) reply _ (frame_writes ws ∷ []) v')
  ]

  lines-Sound :
      (clock : ℕ → ℕ) (replies : ℕ → Reply) (fuel k : ℕ) (l : Loop)
      → IsValid l.pad.slots
      → Sound (lines u loads clock replies fuel k l)
  unfolding lines
  lines-Sound clock replies zero k l v = v
  lines-Sound clock replies (suc fuel) k l v = elim (Option-cases (split_line l.buf)) [
    | inl e ↦ rw (lines, e) v
    | inr ((line, more), e) ↦
        rw (lines, e)
          (then-Sound (handle_line u loads line (clock k) (replies k) (record l { buf = more }))
            (lines u loads clock replies fuel (k + 1))
            (handle_line-Sound line (clock k) (replies k) (record l { buf = more }) v)
            (λ l' v'. lines-Sound clock replies fuel (k + 1) l' v'))
  ]

  -- From valid slots, input of any content never makes `frame` run out of slots (StopIteration), and
  -- the slots are valid after it. It can end in an exception of another kind only.
  pub feed-Sound :
      (clock : ℕ → ℕ) (replies : ℕ → Reply) (bytes : Bytes) (l : Loop)
      → IsValid l.pad.slots
      → Sound (feed u loads clock replies bytes l)
  unfolding feed
  feed-Sound clock replies bytes l v = elim (Bool-cases (ltb 65536 (length (l.buf ++ bytes)))) [
    | inl big ↦ rw big (λ e. cc)
    | inr fits ↦ rw fits (
        lines-Sound clock replies (length (l.buf ++ bytes)) 0 (record l { buf = l.buf ++ bytes }) v)
  ]

  handle_line-buf :
      (line : Bytes) (now : ℕ) (reply : Reply) (l l' : Loop) (out : List Output)
      → handle_line u loads line now reply l ≡ ok (l', out)
      → l'.buf ≡ l.buf
  unfolding handle_line acknowledge
  handle_line-buf line now reply l l' out h = elim (outcome (loads line >>= validate u)) [
    | inr (e, bad) ↦ ground (arith, submit_empty u l)
    | inl ((ps, b), good) ↦ elim (Option-cases (frame u ps b l.pad)) [
      | inl full ↦ ground arith
      | inr ((pad, ws), framed) ↦ ground arith
    ]
  ]

  lines_complete :
      (clock : ℕ → ℕ) (replies : ℕ → Reply) (fuel k : ℕ) (l l' : Loop) (out : List Output)
      → length l.buf ≤ fuel
      → lines u loads clock replies fuel k l ≡ ok (l', out)
      → split_line l'.buf ≡ none
  unfolding lines
  lines_complete clock replies zero k l l' out le h =
      let same : l ≡ l' = ground arith in rw (← same) (no_line l.buf le)
  lines_complete clock replies (suc fuel) k l l' out le h = elim (Option-cases (split_line l.buf)) [
    | inl e ↦ ground arith
    | inr ((line, more), e) ↦
        let ((l₁, o₁), g, rest) =
          >>=-eq-ok (handle_line u loads line (clock k) (replies k) (record l { buf = more })) _
            (rw (lines, e) at h) in
        let ((l₂, o₂), g₂, last) = >>=-eq-ok (lines u loads clock replies fuel (k + 1) l₁) _ rest in
        let same : l₂ ≡ l' = ground arith in
        let kept = handle_line-buf line (clock k) (replies k) (record l { buf = more }) l₁ o₁ g in
        let shorter = split_line-le l.buf line more e in
        rw (← same) (
          lines_complete clock replies fuel (k + 1) l₁ l₂ o₂
            (omega (arith, ap (λ b. length b) kept, shorter)) g₂)
  ]

  -- The loop over the lines ends with no line left: what stays in the buffer holds no newline.
  feed-split_line :
      (clock : ℕ → ℕ) (replies : ℕ → Reply) (bytes : Bytes) (l l' : Loop) (out : List Output)
      → feed u loads clock replies bytes l ≡ ok (l', out)
      → split_line l'.buf ≡ none
  unfolding feed
  feed-split_line clock replies bytes l l' out h =
      elim (Bool-cases (ltb 65536 (length (l.buf ++ bytes)))) [
        | inl big ↦ ground arith
        | inr fits ↦
            lines_complete clock replies (length (l.buf ++ bytes)) 0
              (record l { buf = l.buf ++ bytes }) l' out (omega arith) (ground arith)
      ]
