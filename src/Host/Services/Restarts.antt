-- ===== src/Host/Services/Restarts.antt =====
-- A child that keeps failing is restarted slowly (host/session/user_services.py, `UserServices.poll`).
use mathlib.Core.Path.{subst}
use ashacky.Base.{
  ltb, Bool-cases, All, All-append, Error, Result, outcome, err, ok, ℕ, ◌+◌, ◌-◌, ◌≤◌, ◌≡◌, refl,
  sym, ap, ◌∙◌, inl, inr, true, false, List, [], ◌∷◌, ◌++◌, append-nil, append_assoc, arith,
}
use ashacky.Host.Services.{
  equals_process, Service, Action, clean, start, recent, last_of, held_back, restart, Seen,
  poll_service, launch,
}

-- The times of the launches among the actions of one poll.
abbrev pub launched_at : ℕ → List Action → List ℕ
launched_at now [] = []
launched_at now (launch _ _ ∷ rest) = now ∷ launched_at now rest
launched_at now (_ ∷ rest) = launched_at now rest

-- The times at which a child is launched again by a sequence of polls; an exception ends the session.
unfoldable pub restarts : List (ℕ × Seen) → Service → List ℕ
restarts [] s = []
restarts ((now, seen) ∷ rounds) s =
    let (s', actions, result) = poll_service now seen s in
    let later = restarts rounds s' in
    elim result [ err e ↦ launched_at now actions | ok _ ↦ launched_at now actions ++ later ]

-- A monotonic clock: no poll is earlier than the one before.
abbrev pub Timely : ℕ → List (ℕ × Seen) → Type 0
Timely t [] = Unit
Timely t ((now, _) ∷ rounds) = (t ≤ now) × Timely now rounds

abbrev pub Apart : ℕ → List ℕ → Type 0
Apart a [] = Unit
Apart a (b ∷ _) = a + 10000 ≤ b

abbrev pub Fourth : ℕ → List ℕ → Type 0
Fourth a (_ ∷ _ ∷ d ∷ _) = a + 60000 ≤ d
Fourth a _ = Unit

-- Two restarts in a row are ten seconds apart or more, and of four in a row the last is a minute
-- or more after the first.
abbrev pub Spaced : List ℕ → Type 0
Spaced [] = Unit
Spaced (a ∷ ts) = Apart a ts × Fourth a ts × Spaced ts

abbrev pub Before : ℕ → ℕ → Type 0
Before now t = t + 60000 ≤ now

recent-id :
    (now a : ℕ) (ts : List ℕ)
    → Spaced (a ∷ ts)
    → ltb (now - a) 60000 ≡ true
    → recent now (a ∷ ts) ≡ a ∷ ts
unfolding recent
recent-id now a [] s k = ground arith
recent-id now a (b ∷ ts) s k = ground (arith, recent-id now b ts (s.2) (ground arith))

recent-suffix :
    (now : ℕ) (ts : List ℕ)
    → Spaced ts
    → (old : List ℕ) × (ts ≡ old ++ recent now ts) × All (Before now) old
unfolding recent
recent-suffix now [] s = ([], refl, tt)
recent-suffix now (a ∷ ts) s = elim (Bool-cases (ltb (now - a) 60000)) [
  | inl k ↦ ([], sym (recent-id now a ts s k), tt)
  | inr k ↦
      let (old, e, before) = recent-suffix now ts (s.2) in (a ∷ old, ground arith, ground arith)
]

gaps-snoc :
    (a n : ℕ) (ts : List ℕ)
    → Apart a ts
    → Fourth a ts
    → a + 60000 ≤ n
    → Apart a (ts ++ n ∷ []) × Fourth a (ts ++ n ∷ [])
gaps-snoc a n [] p q h = (omega arith, tt)
gaps-snoc a n (b ∷ []) p q h = (p, tt)
gaps-snoc a n (b ∷ c ∷ []) p q h = (p, h)
gaps-snoc a n (b ∷ c ∷ d ∷ ts) p q h = (p, q)

recent-snoc :
    (now : ℕ) (ts : List ℕ) → Spaced ts → held_back now ts ≡ false → Spaced (ts ++ now ∷ [])
unfolding held_back last_of
recent-snoc now [] s h = (tt, tt, tt)
recent-snoc now (a ∷ []) s h = ground arith
recent-snoc now (a ∷ b ∷ []) s h = ground arith
recent-snoc now (a ∷ b ∷ c ∷ ts) s h = ground arith

Spaced-snoc :
    (now : ℕ) (old ts : List ℕ)
    → Spaced (old ++ ts)
    → All (Before now) old
    → held_back now ts ≡ false
    → Spaced ((old ++ ts) ++ now ∷ [])
Spaced-snoc now [] ts s b h = recent-snoc now ts s h
Spaced-snoc now (a ∷ old) ts (p, q, s) b h =
    let (p', q') = gaps-snoc a now (old ++ ts) p q (b.0) in
    (p', q', Spaced-snoc now old ts s (b.1) h)

-- What a poll at `t` left: the restarts so far, of which those that `retries` no longer holds are
-- a minute old.
Remembers : ℕ → List ℕ → List ℕ → Type 0
Remembers t log retries = (old : List ℕ) × (log ≡ old ++ retries) × All (Before t) old × Spaced log

Remembers-Spaced : (t : ℕ) (log retries : List ℕ) → Remembers t log retries → Spaced log
unfolding Remembers
Remembers-Spaced t log retries (old, e, b, s) = s

Before-weaken : (t now : ℕ) (old : List ℕ) → t ≤ now → All (Before t) old → All (Before now) old
Before-weaken t now [] le b = tt
Before-weaken t now (a ∷ old) le b = (omega arith, Before-weaken t now old le (b.1))

Spaced-drop : (old ts : List ℕ) → Spaced (old ++ ts) → Spaced ts
Spaced-drop [] ts s = s
Spaced-drop (a ∷ old) ts s = Spaced-drop old ts (s.2)

recent-Remembers :
    (t now : ℕ) (log retries : List ℕ)
    → t ≤ now
    → Remembers t log retries
    → Remembers now log (recent now retries)
unfolding Remembers
recent-Remembers t now log retries le (old, e, b, s) =
    let (older, f, c) = recent-suffix now retries (Spaced-drop old retries (subst Spaced e s)) in
    (
      old ++ older,
      e ∙ ap (λ r. old ++ r) f ∙ sym (append_assoc old older (recent now retries)),
      All-append (Before now) old older (Before-weaken t now old le b) c,
      s,
    )

snoc-Remembers :
    (now : ℕ) (log retries : List ℕ)
    → held_back now retries ≡ false
    → Remembers now log retries
    → Remembers now (log ++ now ∷ []) (retries ++ now ∷ [])
unfolding Remembers
snoc-Remembers now log retries h (old, e, b, s) = (
  old,
  ap (λ l. l ++ now ∷ []) e ∙ append_assoc old retries (now ∷ []),
  b,
  subst (λ l. Spaced (l ++ now ∷ [])) (sym e) (Spaced-snoc now old retries (subst Spaced e s) b h),
)

launched_at-clean :
    (now : ℕ) (s : Service) (more : List Action)
    → launched_at now ((clean s).1 ++ more) ≡ launched_at now more
unfolding clean
launched_at-clean now s more = elim (Bool-cases (equals_process s.process s.cleaned)) [
  | inl c ↦ ground arith
  | inr c ↦ ground arith
]

-- A restart that is held back leaves the times of late; one that is not adds this one to them.
restart-held_back :
    (now : ℕ) (spawned : Result ℕ) (s : Service)
    → held_back now (recent now s.retries) ≡ true
    → let r = restart now spawned s in
      (launched_at now r.1 ≡ []) × (r.0.retries ≡ recent now s.retries)
unfolding restart clean
restart-held_back now spawned s h = elim (Bool-cases (equals_process s.process s.cleaned)) [
  | inl c ↦ ground arith
  | inr c ↦ ground arith
]

restart-start :
    (now p : ℕ) (s : Service)
    → held_back now (recent now s.retries) ≡ false
    → let r = restart now (ok p) s in
      (launched_at now r.1 ≡ now ∷ []) × (r.0.retries ≡ recent now s.retries ++ now ∷ [])
unfolding restart start clean
restart-start now p s h = elim (Bool-cases (equals_process s.process s.cleaned)) [
  | inl c ↦ ground arith
  | inr c ↦ ground arith
]

restart-raised :
    (now : ℕ) (x : Error) (s : Service)
    → held_back now (recent now s.retries) ≡ false
    → let r = restart now (err x) s in (launched_at now r.1 ≡ []) × (r.2 ≡ err x)
unfolding restart start clean
restart-raised now x s h = elim (Bool-cases (equals_process s.process s.cleaned)) [
  | inl c ↦ ground arith
  | inr c ↦ ground arith
]

-- After a poll: the restarts are spaced, and unless it raised, the child remembers the last minute.
Polled : ℕ → List ℕ → Service × List Action × Result (Unit {0}) → Type 0
Polled now log (s, actions, result) =
    Spaced (log ++ launched_at now actions)
    × (result ≡ ok tt → Remembers now (log ++ launched_at now actions) s.retries)

polled :
    (now : ℕ) (log : List ℕ) (r : Service × List Action × Result (Unit {0}))
    → Polled now log r
    → Spaced (log ++ launched_at now r.1)
      × (r.2 ≡ ok tt → Remembers now (log ++ launched_at now r.1) r.0.retries)
unfolding Polled
polled now log r p = p

quiet-Polled :
    (now : ℕ) (log : List ℕ) (r : Service × List Action × Result (Unit {0}))
    → launched_at now r.1 ≡ []
    → Remembers now log r.0.retries
    → Polled now log r
unfolding Polled
quiet-Polled now log r e m =
    let same : log ++ launched_at now r.1 ≡ log = ap (λ l. log ++ l) e ∙ append-nil log in
    (
      subst Spaced (sym same) (Remembers-Spaced now log _ m),
      λ o. subst (λ l. Remembers now l r.0.retries) (sym same) m,
    )

started-Polled :
    (now : ℕ) (spawned : Result ℕ) (s : Service) (log : List ℕ)
    → held_back now (recent now s.retries) ≡ false
    → Remembers now log (recent now s.retries)
    → Polled now log (restart now spawned s)
unfolding Polled
started-Polled now (ok p) s log free m =
    let (e, f) = restart-start now p s free in
    let m' = subst (Remembers now _) (sym f) (snoc-Remembers now log _ free m) in
    let m'' = subst (λ l. Remembers now (log ++ l) (restart now (ok p) s).0.retries) (sym e) m' in
    (Remembers-Spaced now _ _ m'', λ o. m'')
started-Polled now (err x) s log free m =
    let (e, f) = restart-raised now x s free in
    (
      subst (λ l. Spaced (log ++ l)) (sym e)
          (subst Spaced (sym (append-nil log)) (Remembers-Spaced now log _ m)),
      λ o. ground arith,
    )

restart-Polled :
    (t now : ℕ) (spawned : Result ℕ) (s : Service) (log : List ℕ)
    → t ≤ now
    → Remembers t log s.retries
    → Polled now log (restart now spawned s)
unfolding Polled
restart-Polled t now spawned s log le m =
    let m' = recent-Remembers t now log s.retries le m in
    elim (Bool-cases (held_back now (recent now s.retries))) [
      | inl held ↦
          let (e, f) = restart-held_back now spawned s held in
          quiet-Polled now log (restart now spawned s) e (subst (Remembers now log) (sym f) m')
      | inr free ↦ started-Polled now spawned s log free m'
    ]

poll_service-Polled :
    (t now : ℕ) (seen : Seen) (s : Service) (log : List ℕ)
    → t ≤ now
    → Remembers t log s.retries
    → Polled now log (poll_service now seen s)
unfolding poll_service Remembers
poll_service-Polled t now seen s log le m = elim (Bool-cases seen.exited) [
  | inl e ↦ rw (poll_service, e) (restart-Polled t now seen.spawned s log le m)
  | inr e ↦
      let (old, f, b, sp) = m in
      rw (poll_service, e)
        (quiet-Polled now log (s, [], ok tt) refl (old, f, Before-weaken t now old le b, sp))
]

restarts-after :
    (t : ℕ) (rounds : List (ℕ × Seen)) (s : Service) (log : List ℕ)
    → Timely t rounds
    → Remembers t log s.retries
    → Spaced (log ++ restarts rounds s)
unfolding restarts
restarts-after t [] s log le m = subst Spaced (sym (append-nil log)) (Remembers-Spaced t log _ m)
restarts-after t ((now, seen) ∷ rounds) s log (le, later) m =
    let (spaced, remembers) = polled now log _ (poll_service-Polled t now seen s log le m) in
    elim (outcome (poll_service now seen s).2) [
      | inl (o, e) ↦
          rw (restarts, e)
            (subst Spaced (append_assoc log _ _)
              (restarts-after now rounds _ _ later (remembers e)))
      | inr (x, e) ↦ rw (restarts, e) spaced
    ]

-- A child that exits again and again, polled at times that never fall, and whose list of retries is
-- empty at first, is restarted with pauses of ten seconds or more between two restarts, and at most
-- three times in less than a minute: of four restarts in a row the last is a minute or more after the
-- first.
pub restarts-Spaced :
    (t : ℕ) (rounds : List (ℕ × Seen)) (s : Service)
    → Timely t rounds
    → s.retries ≡ []
    → Spaced (restarts rounds s)
unfolding Remembers
restarts-Spaced t rounds s le e =
    restarts-after t rounds s [] le (subst (Remembers t []) (sym e) ([], refl, tt, tt))
