-- ===== src/Camera/Session.antt =====
-- A session of the camera: the frames, and what it leaves (guest/devices/camera_shared.py and the inner
-- loop of guest/devices/camera_demand.py, `serve`).
use mathlib.Core.Path.{subst}
use ashacky.Base.{
  if◌then◌else◌, Bool-cases, Option-cases, is_some, length, take, Error, Result, ◌>>=◌, raise_if,
  >>=-eq-ok, outcome, value_error, err, ok, ℕ, suc, ◌≤◌, ◌<◌, String, ◌≡◌, refl, ap, ◌∙◌, ◌≢◌, inl,
  inr, Bool, not, Option, none, some, List, [], ◌∷◌, ◌++◌, arith,
}
use ashacky.Base.Json.{Json, Fields, get}
use ashacky.Wifi.Events.{ValueEq}
use ashacky.Camera.{
  Camera, new_camera, Action, natural, descriptor, take_frame, exit, is_string, has_frame_shape,
  check_frame, frame, started, enter, camera_start, camera_next, camera_stop, unmap,
}

module _ {F : Type 0} (q : ValueEq F) where
  -- The frames that are taken, until one raises or the demand ends.
  unfoldable pub frames :
      List (Result (Fields F) × (ℕ → ℕ → Bool)) → Camera → Camera × List Action × List ℕ
  frames [] c = (c, [], [])
  frames ((reply, copied) ∷ rest) c =
      let (c', actions, result) = frame q reply copied c in
      let (c'', more, taken) = frames rest c' in
      elim result [
        | err e ↦ (c', actions, [])
        | ok sequence ↦ (c'', actions ++ more, sequence ∷ taken)
      ]

  -- `with CameraStream(path) as stream: ...`
  unfoldable pub session :
      (Json F → Result String)
      → Option ℕ
      → Result (Fields F)
      → List (Result (Fields F) × (ℕ → ℕ → Bool))
      → Camera
      → Camera × List Action × List ℕ
  session uuid mapped reply rounds c =
      let (c', opened, result) = enter q uuid mapped reply c in
      let (c'', asked, taken) = frames rounds c' in
      let (c₃, closed) = exit c'' in
      elim result [ err e ↦ (c', opened, []) | ok _ ↦ (c₃, opened ++ (asked ++ closed), taken) ]

-- the acknowledgements among the requests, and the mappings that end
abbrev pub acks : List Action → List ℕ
acks [] = []
acks (camera_next _ k ∷ rest) = k ∷ acks rest
acks (_ ∷ rest) = acks rest

abbrev pub unmapped : List Action → List ℕ
unmapped [] = []
unmapped (unmap m ∷ rest) = m ∷ unmapped rest
unmapped (_ ∷ rest) = unmapped rest

-- sequences that rise from one on, and fit 31 bits
abbrev pub Rises : ℕ → List ℕ → Type 0
Rises last [] = Unit
Rises last (s ∷ ss) = (last < s) × (s ≤ 0x7fffffff) × Rises s ss

descriptor_lem :
    (last slot s : ℕ) (a b : Option ℕ)
    → descriptor last a b ≡ ok (slot, s)
    → (last < s) × (s ≤ 0x7fffffff) × (slot < 3)
unfolding descriptor
descriptor_lem last slot s none b h = ground arith
descriptor_lem last slot s (some i) none h = ground arith
descriptor_lem last slot s (some i) (some n) h = ground arith

take_frame_lem :
    (copied : ℕ → ℕ → Bool) (found : Result (ℕ × ℕ)) (c : Camera) (s : ℕ)
    → (take_frame copied found c).1 ≡ ok s
    → (slot : ℕ) × (found ≡ ok (slot, s)) × ((take_frame copied found c).0.sequence ≡ s)
unfolding take_frame
take_frame_lem copied (err e) c s h = ground arith
take_frame_lem copied (ok (slot, n)) c s h = elim (Bool-cases (copied slot n)) [
  | inl y ↦ (slot, ground arith, ground arith)
  | inr refused ↦ ground arith
]

module _ {F : Type 0} (q : ValueEq F) where
  check_frame_lem :
      (c : Camera) (reply : Fields F) (slot s : ℕ)
      → check_frame q c reply ≡ ok (slot, s)
      → (c.sequence < s) × (s ≤ 0x7fffffff) × (slot < 3)
  unfolding check_frame
  check_frame_lem c reply slot s h =
      let (u, e₁, h₁) =
        >>=-eq-ok (raise_if (not (is_string q c.stream (get "stream" reply))) value_error) _ h in
      let ((i, n), e₂, h₂) =
        >>=-eq-ok
          (descriptor c.sequence (natural (get "slot" reply)) (natural (get "sequence" reply))) _
          h₁ in
      let (w, e₃, h₃) = >>=-eq-ok (raise_if (not (has_frame_shape q reply)) value_error) _ h₂ in
      let (a, b, d) = descriptor_lem c.sequence i n _ _ e₂ in ground arith

  frame_lem :
      (reply : Result (Fields F)) (copied : ℕ → ℕ → Bool) (c : Camera) (s : ℕ)
      → (frame q reply copied c).2 ≡ ok s
      → (c.sequence < s) × (s ≤ 0x7fffffff) × ((frame q reply copied c).0.sequence ≡ s)
  unfolding frame
  frame_lem reply copied c s h =
      let (slot, e, same) = take_frame_lem copied (reply >>= check_frame q c) c s h in
      let (r, f, g) = >>=-eq-ok reply (check_frame q c) e in
      let (a, b, d) = check_frame_lem c r slot s g in (a, b, same)

  frame-asked :
      (reply : Result (Fields F)) (copied : ℕ → ℕ → Bool) (c : Camera)
      → (frame q reply copied c).1 ≡ camera_next c.stream c.sequence ∷ []
  unfolding frame
  frame-asked reply copied c = refl

  acks_after :
      (last s : ℕ) (ks taken : List ℕ)
      → ks ≡ take (length ks) (s ∷ taken)
      → last ∷ ks ≡ take (suc (length ks)) (last ∷ s ∷ taken)
  acks_after last s ks taken e = ap (λ l. last ∷ l) e

  -- The frames that are taken have sequences that rise from the last one on, within 31 bits, and each
  -- request for a frame acknowledges the one taken before it: no frame is acknowledged before it is
  -- taken, or taken twice.
  pub frames-Rises :
      (rounds : List (Result (Fields F) × (ℕ → ℕ → Bool))) (c : Camera)
      → let (c', actions, taken) = frames q rounds c in
        Rises c.sequence taken × (acks actions ≡ take (length (acks actions)) (c.sequence ∷ taken))
  unfolding frames
  frames-Rises [] c = (tt, refl)
  frames-Rises ((reply, copied) ∷ rounds) c = elim (outcome (frame q reply copied c).2) [
    | inr (x, e) ↦ rw (frames, e, frame-asked reply copied c) (tt, refl)
    | inl (s, e) ↦
        let (low, high, same) = frame_lem reply copied c s e in
        let c' = (frame q reply copied c).0 in
        let (rises, acked) = frames-Rises rounds c' in
        let acked' =
          subst
            (λ k.
              acks (frames q rounds c').1
              ≡ take (length (acks (frames q rounds c').1)) (k ∷ (frames q rounds c').2))
            same acked in
        rw (frames, e, frame-asked reply copied c)
          (
            (low, high, subst (λ k. Rises k (frames q rounds c').2) same rises),
            acks_after c.sequence s (acks (frames q rounds c').1) (frames q rounds c').2 acked',
          )
  ]

unmapped-append : (xs ys : List Action) → unmapped (xs ++ ys) ≡ unmapped xs ++ unmapped ys
unmapped-append [] ys = refl
unmapped-append (unmap m ∷ xs) ys = ap (λ l. m ∷ l) (unmapped-append xs ys)
unmapped-append (camera_start ∷ xs) ys = unmapped-append xs ys
unmapped-append (camera_next s k ∷ xs) ys = unmapped-append xs ys
unmapped-append (camera_stop s ∷ xs) ys = unmapped-append xs ys

take_frame-memory :
    (copied : ℕ → ℕ → Bool) (found : Result (ℕ × ℕ)) (c : Camera)
    → (take_frame copied found c).0.memory ≡ c.memory
unfolding take_frame
take_frame-memory copied (err e) c = refl
take_frame-memory copied (ok (slot, n)) c = elim (Bool-cases (copied slot n)) [
  | inl y ↦ ground arith
  | inr refused ↦ ground arith
]

-- the mapping that a session has to end
abbrev pub mapped_list : Option ℕ → List ℕ
mapped_list none = []
mapped_list (some m) = m ∷ []

exit-unmapped : (c : Camera) → unmapped (exit c).1 ≡ mapped_list c.memory
unfolding exit
exit-unmapped c = elim (Option-cases c.stream) [
  | inl e ↦ elim (Option-cases c.memory) [ inl f ↦ ground arith | inr (m, f) ↦ ground arith ]
  | inr (s, e) ↦ elim (Option-cases c.memory) [ inl f ↦ ground arith | inr (m, f) ↦ ground arith ]
]

-- A camera that is given back: no mapping, no stream, and no image in the scratch buffer.
abbrev pub IsReleased : Camera → Type 0
IsReleased c = (c.memory ≡ none) × (c.stream ≡ none) × (c.pixels ≡ none)

module _ {F : Type 0} (q : ValueEq F) where
  frames-memory :
      (rounds : List (Result (Fields F) × (ℕ → ℕ → Bool))) (c : Camera)
      → ((frames q rounds c).0.memory ≡ c.memory) × (unmapped (frames q rounds c).1 ≡ [])
  unfolding frames frame
  frames-memory [] c = (refl, refl)
  frames-memory ((reply, copied) ∷ rounds) c =
      let kept = take_frame-memory copied (reply >>= check_frame q c) c in
      let (m, u) = frames-memory rounds (frame q reply copied c).0 in
      elim (outcome (take_frame copied (reply >>= check_frame q c) c).1) [
        | inr (x, e) ↦ rw (frames, e) (kept, refl)
        | inl (s, e) ↦ rw (frames, e) (m ∙ kept, u)
      ]

  body-unmapped :
      (rounds : List (Result (Fields F) × (ℕ → ℕ → Bool))) (c : Camera)
      → unmapped ((frames q rounds c).1 ++ (exit (frames q rounds c).0).1) ≡ mapped_list c.memory
  body-unmapped rounds c =
      let (m, u) = frames-memory rounds c in
      unmapped-append (frames q rounds c).1 (exit (frames q rounds c).0).1
      ∙ ap (λ l. l ++ unmapped (exit (frames q rounds c).0).1) u
      ∙ exit-unmapped (frames q rounds c).0
      ∙ ap mapped_list m

  raised_lem :
      (uuid : Json F → Result String) (m : ℕ) (reply : Result (Fields F)) (o : Unit {0}) (x : Error)
      → (started q uuid reply).1 ≡ err x
      → (enter q uuid (some m) reply new_camera).2 ≢ ok o
  unfolding enter
  raised_lem uuid m reply o x e h = ground arith

  opened_lem :
      (uuid : Json F → Result String) (m : ℕ) (reply : Result (Fields F)) (u : Unit {0}) (x : Error)
      → (started q uuid reply).1 ≡ ok u
      → (enter q uuid (some m) reply new_camera).2 ≢ err x
  unfolding enter
  opened_lem uuid m reply u x e h = ground arith

  -- A session that opens has made the mapping; one that does not has ended it.
  enter-ok :
      (uuid : Json F → Result String) (mapped : Option ℕ) (reply : Result (Fields F)) (o : Unit {0})
      → (enter q uuid mapped reply new_camera).2 ≡ ok o
      → ((enter q uuid mapped reply new_camera).0.memory ≡ mapped)
        × (unmapped (enter q uuid mapped reply new_camera).1 ≡ [])
  unfolding enter
  enter-ok uuid none reply o h = ground arith
  enter-ok uuid (some m) reply o h = elim (outcome (started q uuid reply).1) [
    | inl (u, e) ↦ rw (enter, e) (refl, refl)
    | inr (x, e) ↦ absurd (raised_lem uuid m reply o x e h)
  ]

  enter-raised :
      (uuid : Json F → Result String) (mapped : Option ℕ) (reply : Result (Fields F)) (x : Error)
      → (enter q uuid mapped reply new_camera).2 ≡ err x
      → IsReleased (enter q uuid mapped reply new_camera).0
        × (unmapped (enter q uuid mapped reply new_camera).1 ≡ mapped_list mapped)
  unfolding enter exit
  enter-raised uuid none reply x h = ((refl, refl, refl), refl)
  enter-raised uuid (some m) reply x h = elim (outcome (started q uuid reply).1) [
    | inl (u, e) ↦ absurd (opened_lem uuid m reply u x e h)
    | inr (y, e) ↦
        rw (enter, e)
          (
            (refl, refl, refl),
            exit-unmapped (record new_camera {
              memory = some m;
              stream = if is_some (started q uuid reply).0 then (started q uuid reply).0 else none;
            }),
          )
  ]

  -- Whatever the host replies and wherever the session fails, the camera is given back at its end: no
  -- mapping, no stream and no image are left, and the mapping that was made, if one was, is ended,
  -- exactly once.
  pub session-IsReleased :
      (uuid : Json F → Result String) (mapped : Option ℕ) (reply : Result (Fields F))
      (rounds : List (Result (Fields F) × (ℕ → ℕ → Bool)))
      → let (c, actions, taken) = session q uuid mapped reply rounds new_camera in
        IsReleased c × (unmapped actions ≡ mapped_list mapped)
  unfolding session exit
  session-IsReleased uuid mapped reply rounds =
      let opened = enter q uuid mapped reply new_camera in
      elim (outcome opened.2) [
        | inr (x, e) ↦ rw (session, e) (enter-raised uuid mapped reply x e)
        | inl (o, e) ↦
            let (m, u) = enter-ok uuid mapped reply o e in
            rw (session, e)
              (
                (refl, refl, refl),
                unmapped-append opened.1 _
                    ∙ ap
                        (λ l.
                          l
                          ++ unmapped (
                              (frames q rounds opened.0).1
                              ++ (exit (frames q rounds opened.0).0).1))
                        u
                    ∙ body-unmapped rounds opened.0
                    ∙ ap mapped_list m,
              )
      ]
