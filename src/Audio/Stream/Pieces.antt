-- ===== src/Audio/Stream/Pieces.antt =====
-- It makes no difference where the stream is cut into pieces
-- (guest/devices/audio_events.py, `JSONStream.feed`).
use mathlib.Core.Path.{subst}
use ashacky.Base.{
  ltb, Bool-cases, length, drop, length-append, length-drop, Result, ◌>>=◌, outcome, ok_injective,
  ok, ℕ, zero, suc, ◌≤◌, ◌≡◌, refl, sym, ap, ◌∙◌, ◌⊎◌, inl, inr, Bool, false, Option, none, some,
  List, [], ◌∷◌, ◌++◌, append-nil, append_assoc, arith,
}
use ashacky.Base.Json.{Json, Items, null, bool, int, float, str, arr, obj}
use ashacky.Audio.Stream.{
  lstrip, before_batches, batch_of, RawDecode, decode_found, decode_stripped, decode_all,
  feed_stream,
}

module _ (space : ℕ → Bool) where
  lstrip-lstrip : (xs ys : List ℕ) → lstrip space (lstrip space xs ++ ys) ≡ lstrip space (xs ++ ys)
  lstrip-lstrip [] ys = refl
  lstrip-lstrip (c ∷ cs) ys = elim (Bool-cases (space c)) [
    | inl y ↦ rw y (lstrip-lstrip cs ys)
    | inr n ↦ rw (n, n) refl
  ]

  length-lstrip : (xs : List ℕ) → length (lstrip space xs) ≤ length xs
  length-lstrip [] = omega arith
  length-lstrip (c ∷ cs) = ground (arith, length-lstrip cs)

  lstrip-cons :
      (xs ys cs : List ℕ) (c : ℕ)
      → lstrip space xs ≡ c ∷ cs
      → lstrip space (xs ++ ys) ≡ c ∷ (cs ++ ys)
  lstrip-cons [] ys cs c h = ground arith
  lstrip-cons (x ∷ xs) ys cs c h = elim (Bool-cases (space x)) [
    | inl y ↦ ground (arith, lstrip-cons xs ys cs c)
    | inr n ↦ ground arith
  ]

drop-append-le : (n : ℕ) (xs ys : List ℕ) → n ≤ length xs → drop n (xs ++ ys) ≡ drop n xs ++ ys
drop-append-le zero xs ys h = refl
drop-append-le (suc n) [] ys h = absurd (omega arith)
drop-append-le (suc n) (x ∷ xs) ys h = drop-append-le n xs ys (omega arith)

list_cases : (t : List ℕ) → (t ≡ []) ⊎ ((c : ℕ) × (cs : List ℕ) × (t ≡ c ∷ cs))
list_cases [] = inl refl
list_cases (c ∷ cs) = inr (c, cs, refl)

module _ {F : Type 0} (space : ℕ → Bool) (d : RawDecode F) where
  abbrev decode : ℕ → List ℕ → Result (List (Items F) × List ℕ)
  decode = decode_all space d.raw

  -- the batches before those of the rest
  abbrev pub before_all :
      List (Items F) → Result (List (Items F) × List ℕ) → Result (List (Items F) × List ℕ)
  before_all [] r = r
  before_all (b ∷ bs) r = before_batches b (before_all bs r)

  found-next :
      (t : List ℕ) (o : Option (Json F × ℕ)) (f g : ℕ → Result (List (Items F) × List ℕ))
      → ((v : Json F) (e : ℕ) → o ≡ some (v, e) → f e ≡ g e)
      → decode_found t o f ≡ decode_found t o g
  found-next t none f g h = refl
  found-next t (some (v, e)) f g h =
      ap (λ r. batch_of v >>= λ batch. before_batches batch r) (h v e refl)

  stripped-next :
      (text s : List ℕ) (f g : List ℕ → Result (List (Items F) × List ℕ))
      → f s ≡ g s
      → decode_stripped text s f ≡ decode_stripped text s g
  stripped-next text [] f g h = refl
  stripped-next text (c ∷ cs) f g h = h

  short_drop : (m e : ℕ) (t : List ℕ) → length t ≤ suc m → 1 ≤ e → length (drop e t) ≤ m
  short_drop m e t h k = omega (arith, length-drop e t)

  decode-fuel :
      (m n : ℕ) (text : List ℕ) → length text ≤ m → length text ≤ n → decode m text ≡ decode n text
  unfolding decode_all
  decode-fuel zero zero text h k = refl
  decode-fuel zero (suc n) [] h k = refl
  decode-fuel zero (suc n) (c ∷ cs) h k = absurd (omega arith)
  decode-fuel (suc m) zero [] h k = refl
  decode-fuel (suc m) zero (c ∷ cs) h k = absurd (omega arith)
  decode-fuel (suc m) (suc n) text h k =
      let t = lstrip space text in
      stripped-next text t (λ u. decode_found u (d.raw u) (λ e. decode m (drop e u)))
        (λ u. decode_found u (d.raw u) (λ e. decode n (drop e u)))
        (found-next t (d.raw t) (λ e. decode m (drop e t)) (λ e. decode n (drop e t))
          (λ v e r.
            decode-fuel m n (drop e t)
              (short_drop m e t (omega (arith, length-lstrip space text)) (d.positive t v e r))
              (short_drop n e t (omega (arith, length-lstrip space text)) (d.positive t v e r))))

  -- a text that is not all white space, with the fuel that its length gives
  decode-cons :
      (n : ℕ) (text : List ℕ) (c : ℕ) (cs : List ℕ)
      → length text ≤ n
      → lstrip space text ≡ c ∷ cs
      → decode n text
        ≡ decode_found (c ∷ cs) (d.raw (c ∷ cs)) (λ e. decode (length cs) (drop e (c ∷ cs)))
  unfolding decode_all
  decode-cons zero [] c cs h s = ground arith
  decode-cons zero (x ∷ xs) c cs h s = absurd (omega arith)
  decode-cons (suc n) text c cs h s =
      let fits : length (c ∷ cs) ≤ suc n =
        subst (λ t. length t ≤ suc n) s (omega (arith, length-lstrip space text)) in
      ap (λ t. decode_stripped text t (λ u. decode_found u (d.raw u) (λ e. decode n (drop e u)))) s
      ∙ found-next (c ∷ cs) (d.raw (c ∷ cs)) (λ e. decode n (drop e (c ∷ cs)))
          (λ e. decode (length cs) (drop e (c ∷ cs)))
          (λ v e r.
            decode-fuel n (length cs) (drop e (c ∷ cs))
              (short_drop n e (c ∷ cs) fits (d.positive (c ∷ cs) v e r))
              (short_drop (length cs) e (c ∷ cs) (omega arith) (d.positive (c ∷ cs) v e r)))

  stripped_twice :
      (text cs : List ℕ) (c : ℕ) → lstrip space text ≡ c ∷ cs → lstrip space (c ∷ cs) ≡ c ∷ cs
  stripped_twice text cs c s =
      let twice : lstrip space (lstrip space text ++ []) ≡ lstrip space (text ++ []) =
        lstrip-lstrip space text [] in
      subst (λ t. lstrip space t ≡ c ∷ cs) (append-nil (c ∷ cs))
        (subst (λ t. lstrip space (t ++ []) ≡ c ∷ cs) s
          (twice ∙ lstrip-cons space text [] cs c s ∙ ap (λ t. c ∷ t) (append-nil cs)))

  lstrip-cases :
      (text : List ℕ)
      → (lstrip space text ≡ []) ⊎ ((c : ℕ) × (cs : List ℕ) × (lstrip space text ≡ c ∷ cs))
  lstrip-cases text = list_cases (lstrip space text)

  -- what the loop has read, and left, when it returns
  found-ok :
      (t : List ℕ) (o : Option (Json F × ℕ)) (next : ℕ → Result (List (Items F) × List ℕ))
      (bs : List (Items F)) (rest : List ℕ)
      → decode_found t o next ≡ ok (bs, rest)
      → ((o ≡ none) × (bs ≡ []) × (rest ≡ t))
        ⊎ ((es : Items F) × (e : ℕ) × (more : List (Items F)) × (o ≡ some (arr es, e))
            × (next e ≡ ok (more, rest))
            × (bs ≡ es ∷ more))
  found-ok t none next bs rest h = inl (refl, ground arith, ground arith)
  found-ok t (some (arr es, e)) next bs rest h = elim (outcome (next e)) [
    | inr (x, n) ↦ ground arith
    | inl ((more, rest'), n) ↦ inr (es, e, more, refl, ground arith, ground arith)
  ]
  found-ok t (some (null, e)) next bs rest h = ground arith
  found-ok t (some (bool b, e)) next bs rest h = ground arith
  found-ok t (some (int z, e)) next bs rest h = ground arith
  found-ok t (some (float x, e)) next bs rest h = ground arith
  found-ok t (some (str s, e)) next bs rest h = ground arith
  found-ok t (some (obj fs, e)) next bs rest h = ground arith

  decode-blank : (m : ℕ) (text : List ℕ) → lstrip space text ≡ [] → decode m text ≡ ok ([], text)
  unfolding decode_all
  decode-blank zero text s = refl
  decode-blank (suc m) text s =
      ap (λ t. decode_stripped text t (λ u. decode_found u (d.raw u) (λ e. decode m (drop e u)))) s

  pieces_blank :
      (m n k : ℕ) (text ys rest : List ℕ) (bs : List (Items F))
      → length (text ++ ys) ≤ n
      → length (rest ++ ys) ≤ k
      → decode m text ≡ ok (bs, rest)
      → lstrip space text ≡ []
      → decode n (text ++ ys) ≡ before_all bs (decode k (rest ++ ys))
  pieces_blank m n k text ys rest bs b c h s =
      let same = ok_injective (sym (decode-blank m text s) ∙ h) in
      let fits = subst (λ t. length (t ++ ys) ≤ k) (ap (λ r. r.1) (sym same)) c in
      subst (λ r. decode n (text ++ ys) ≡ before_all r.0 (decode k (r.1 ++ ys))) same
        (decode-fuel n k (text ++ ys) b fits)

  pieces_stuck :
      (n k : ℕ) (text ys rest xs : List ℕ) (x : ℕ)
      → length (text ++ ys) ≤ n
      → length (rest ++ ys) ≤ k
      → lstrip space text ≡ x ∷ xs
      → rest ≡ x ∷ xs
      → decode n (text ++ ys) ≡ decode k (rest ++ ys)
  pieces_stuck n k text ys rest xs x b c s left =
      let fits = subst (λ t. length (t ++ ys) ≤ k) left c in
      decode-cons n (text ++ ys) x (xs ++ ys) b (lstrip-cons space text ys xs x s)
      ∙ sym (
          decode-cons k ((x ∷ xs) ++ ys) x (xs ++ ys) fits
            (lstrip-cons space (x ∷ xs) ys xs x (stripped_twice text xs x s)))
      ∙ ap (λ t. decode k (t ++ ys)) (sym left)

  decode_pieces :
      (m n k : ℕ) (text ys rest : List ℕ) (bs : List (Items F))
      → length text ≤ m
      → length (text ++ ys) ≤ n
      → length (rest ++ ys) ≤ k
      → decode m text ≡ ok (bs, rest)
      → decode n (text ++ ys) ≡ before_all bs (decode k (rest ++ ys))
  decode_pieces zero n k [] ys rest bs a b c h = pieces_blank 0 n k [] ys rest bs b c h refl
  decode_pieces zero n k (y ∷ text) ys rest bs a b c h = absurd (omega arith)
  decode_pieces (suc m) n k text ys rest bs a b c h = elim (lstrip-cases text) [
    | inl blank ↦ pieces_blank (suc m) n k text ys rest bs b c h blank
    | inr (x, xs, s) ↦
        elim (found-ok (x ∷ xs) (d.raw (x ∷ xs)) (λ e. decode (length xs) (drop e (x ∷ xs))) bs rest
          (sym (decode-cons (suc m) text x xs a s) ∙ h)) [
            | inl (stuck, nothing, left) ↦
                pieces_stuck n k text ys rest xs x b c s left
                ∙ ap (λ l. before_all l (decode k (rest ++ ys))) (sym nothing)
            | inr (es, e, more, found, later, all_batches) ↦
                let after = drop e (x ∷ xs) in
                let one = d.positive (x ∷ xs) (arr es) e found in
                let within = d.within (x ∷ xs) (arr es) e found in
                let fits : length (x ∷ xs) ≤ suc m =
                  subst (λ t. length t ≤ suc m) s (omega (arith, length-lstrip space text)) in
                let small = short_drop m e (x ∷ xs) fits one in
                let joined : drop e (x ∷ (xs ++ ys)) ≡ after ++ ys =
                  drop-append-le e (x ∷ xs) ys within in
                let long : length (after ++ ys) ≤ length (xs ++ ys) = omega (
                  arith,
                  length-append after ys,
                  length-append xs ys,
                  short_drop (length xs) e (x ∷ xs) (omega arith) one,
                ) in
                let inner = decode_pieces m (length (xs ++ ys)) k after ys rest more small long c (
                  decode-fuel m (length xs) after small
                    (short_drop (length xs) e (x ∷ xs) (omega arith) one)
                  ∙ later) in
                decode-cons n (text ++ ys) x (xs ++ ys) b (lstrip-cons space text ys xs x s)
                ∙ ap
                    (λ o.
                      decode_found (x ∷ (xs ++ ys)) o
                        (λ e'. decode (length (xs ++ ys)) (drop e' (x ∷ (xs ++ ys)))))
                    (d.extends (x ∷ xs) ys es e found)
                ∙ ap (λ t. before_batches es (decode (length (xs ++ ys)) t)) joined
                ∙ ap (before_batches es) inner
                ∙ ap (λ l. before_all l (decode k (rest ++ ys))) (sym all_batches)
          ]
  ]

  feed_stream-fits :
      (limit : ℕ) (more buffer : List ℕ)
      → length (buffer ++ more) ≤ limit
      → feed_stream space d.raw limit (ok more) buffer
        ≡ decode (length (buffer ++ more)) (buffer ++ more)
  unfolding feed_stream
  feed_stream-fits limit more buffer h =
      let within : ltb limit (length (buffer ++ more)) ≡ false = ground arith in rw within refl

  -- When a piece of the stream has been read, the next piece gives the batches, the rest and the errors that it
  -- would give, behind those batches, if both had come as one piece: it makes no difference where the
  -- stream is cut. The buffer's limit counts what is read at once, and is large enough here.
  pub feed_stream-append :
      (limit : ℕ) (buffer first second rest : List ℕ) (bs : List (Items F))
      → length (buffer ++ (first ++ second)) ≤ limit
      → feed_stream space d.raw limit (ok first) buffer ≡ ok (bs, rest)
      → length (rest ++ second) ≤ limit
      → feed_stream space d.raw limit (ok (first ++ second)) buffer
        ≡ before_all bs (feed_stream space d.raw limit (ok second) rest)
  feed_stream-append limit buffer first second rest bs fits h fits' =
      let less : length (buffer ++ first) ≤ limit = omega (
        arith,
        length-append buffer first,
        length-append buffer (first ++ second),
        length-append first second,
      ) in
      let assoc : (buffer ++ first) ++ second ≡ buffer ++ (first ++ second) =
        append_assoc buffer first second in
      let whole = buffer ++ (first ++ second) in
      let read = sym (feed_stream-fits limit first buffer less) ∙ h in
      let long : length ((buffer ++ first) ++ second) ≤ length whole =
        omega (arith, ap length assoc) in
      feed_stream-fits limit (first ++ second) buffer fits
      ∙ ap (decode (length whole)) (sym assoc)
      ∙ decode_pieces (length (buffer ++ first)) (length whole) (length (rest ++ second))
          (buffer ++ first) second rest bs (omega arith) long (omega arith) read
      ∙ ap (before_all bs) (sym (feed_stream-fits limit second rest fits'))
