-- ===== src/Host/Services/Shutdown.antt =====
-- The end of a session (host/session/user_services.py, `UserServices.stop`).
use ashacky.Base.{
  if◌then◌else◌, Bool-cases, ℕ, ◌+◌, ◌-◌, ◌≡◌, refl, ap, ◌∙◌, inl, inr, Bool, List, [], ◌∷◌, ◌++◌,
  append-nil, arith,
}
use ashacky.Host.Services.{
  equals_process, Service, Action, clean, wait_all, signal_all, stop, terminate, reap,
}

-- the processes that are waited for, and those that are signalled, in order
abbrev pub reaped : List Action → List ℕ
reaped [] = []
reaped (reap p ∷ rest) = p ∷ reaped rest
reaped (_ ∷ rest) = reaped rest

abbrev pub terminated : List Action → List ℕ
terminated [] = []
terminated (terminate p ∷ rest) = p ∷ terminated rest
terminated (_ ∷ rest) = terminated rest

abbrev pub processes : List Service → List ℕ
processes [] = []
processes (s ∷ ss) = s.process ∷ processes ss

-- the processes that no poll has cleaned up
abbrev pub uncleaned : List Service → List ℕ
uncleaned [] = []
uncleaned (s ∷ ss) =
    if equals_process s.process s.cleaned then uncleaned ss else s.process ∷ uncleaned ss

reaped-wait_all :
    (in_time : ℕ → ℕ → Bool) (clock : ℕ → ℕ) (deadline k : ℕ) (ss : List Service)
    → (reaped (wait_all in_time clock deadline k ss) ≡ processes ss)
      × (terminated (wait_all in_time clock deadline k ss) ≡ [])
unfolding wait_all
reaped-wait_all in_time clock deadline k [] = (refl, refl)
reaped-wait_all in_time clock deadline k (s ∷ ss) =
    elim (Bool-cases (in_time s.process (deadline - clock k))) [
      | inl e ↦ ground (arith, reaped-wait_all in_time clock deadline (k + 1) ss)
      | inr e ↦ ground (arith, reaped-wait_all in_time clock deadline (k + 1) ss)
    ]

signal_all-append :
    (ss : List Service) (more : List Action)
    → (reaped (signal_all ss ++ more) ≡ reaped more)
      × (terminated (signal_all ss ++ more) ≡ uncleaned ss ++ terminated more)
unfolding signal_all clean
signal_all-append [] more = (refl, refl)
signal_all-append (s ∷ ss) more = elim (Bool-cases (equals_process s.process s.cleaned)) [
  | inl e ↦ ground (arith, signal_all-append ss more)
  | inr e ↦ ground (arith, signal_all-append ss more)
]

-- When the session ends, each child is waited for until it is gone, once and in order, whether it
-- exits in time or is killed; SIGTERM goes to exactly the process groups that no poll has cleaned up;
-- and no process is left in the table.
stop-reaped :
    (in_time : ℕ → ℕ → Bool) (clock : ℕ → ℕ) (ss : List Service)
    → let (left, actions) = stop in_time clock ss in
      (reaped actions ≡ processes ss) × (terminated actions ≡ uncleaned ss) × (left ≡ [])
unfolding stop
stop-reaped in_time clock ss =
    let waits = wait_all in_time clock (clock 0 + 5000) 1 ss in
    let (e, f) = reaped-wait_all in_time clock (clock 0 + 5000) 1 ss in
    let (g, h) = signal_all-append ss waits in
    (g ∙ e, h ∙ ap (λ l. uncleaned ss ++ l) f ∙ append-nil (uncleaned ss), refl)
