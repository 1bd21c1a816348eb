-- ===== src/Fido/Relay/Fresh.antt =====
-- No client of the relay outlives its deadline (guest/auth/fido2.py, `Relay.step`).
use ashacky.Base.{
  leb, ◌==◌, if◌then◌else◌, Bool-cases, All, mem, Result, ℕ, ◌<◌, ◌≡◌, inl, inr, true, false, List,
  [], ◌∷◌, arith,
}
use ashacky.Fido.Hid.Deadlines.{timeout}
use ashacky.Fido.Relay.{
  Codec, Client, Relay, keep_others, finish, expire_client, expire_clients, after, check_deadlines,
}

-- the sockets of the clients whose deadline has come
abbrev pub due_sockets : ℕ → List Client → List ℕ
due_sockets now [] = []
due_sockets now (c ∷ cs) =
    let rest = due_sockets now cs in if leb c.deadline now then c.socket ∷ rest else rest

-- A client whose deadline has come is among those that are yet to be given up.
Covered : ℕ → List Client → Client → Type 0
Covered now ds c = leb c.deadline now ≡ true → mem c.socket (due_sockets now ds) ≡ true

Covered-self : (now : ℕ) (c : Client) (ds : List Client) → Covered now (c ∷ ds) c
unfolding Covered
Covered-self now c ds h = ground arith

Covered-cons :
    (now : ℕ) (c x : Client) (ds : List Client) → Covered now ds x → Covered now (c ∷ ds) x
unfolding Covered
Covered-cons now c x ds k h = ground (arith, k h)

All-Covered-cons :
    (now : ℕ) (c : Client) (ds cs : List Client)
    → All (Covered now ds) cs
    → All (Covered now (c ∷ ds)) cs
All-Covered-cons now c ds [] k = tt
All-Covered-cons now c ds (x ∷ cs) k =
    (Covered-cons now c x ds k.0, All-Covered-cons now c ds cs k.1)

All-Covered-self : (now : ℕ) (cs : List Client) → All (Covered now cs) cs
All-Covered-self now [] = tt
All-Covered-self now (c ∷ cs) =
    (Covered-self now c cs, All-Covered-cons now c cs cs (All-Covered-self now cs))

-- Once the clients on the socket of a client are gone, that client covers nobody.
keep_others-Covered :
    (now : ℕ) (c : Client) (ds cs : List Client)
    → All (Covered now (c ∷ ds)) cs
    → All (Covered now ds) (keep_others c.socket cs)
unfolding Covered
keep_others-Covered now c ds [] k = tt
keep_others-Covered now c ds (x ∷ cs) k = elim (Bool-cases (x.socket == c.socket)) [
  | inl same ↦ rw same (keep_others-Covered now c ds cs k.1)
  | inr other ↦ rw other ((λ h. ground (arith, k.0 h)), keep_others-Covered now c ds cs k.1)
]

not_due-Covered :
    (now : ℕ) (c : Client) (ds cs : List Client)
    → leb c.deadline now ≡ false
    → All (Covered now (c ∷ ds)) cs
    → All (Covered now ds) cs
unfolding Covered
not_due-Covered now c ds [] e k = tt
not_due-Covered now c ds (x ∷ cs) e k =
    ((λ h. ground (arith, k.0 h)), not_due-Covered now c ds cs e k.1)

expire_client-Covered :
    (now : ℕ) (c : Client) (ds : List Client) (r : Relay)
    → All (Covered now (c ∷ ds)) r.clients
    → All (Covered now ds) (expire_client now c r).0.clients
unfolding expire_client finish
expire_client-Covered now c ds r k = elim (Bool-cases (leb c.deadline now)) [
  | inl due ↦ rw (expire_client, due) (keep_others-Covered now c ds r.clients k)
  | inr not_due ↦ rw (expire_client, not_due) (not_due-Covered now c ds r.clients not_due k)
]

expire_clients-Covered :
    (now : ℕ) (ds : List Client) (r : Relay)
    → All (Covered now ds) r.clients
    → All (Covered now []) (expire_clients now ds r).0.clients
unfolding expire_clients
expire_clients-Covered now [] r k = k
expire_clients-Covered now (c ∷ ds) r k =
    expire_clients-Covered now ds _ (expire_client-Covered now c ds r k)

-- The deadline is still to come.
abbrev pub Fresh : ℕ → Client → Type 0
Fresh now c = now < c.deadline

Covered-Fresh : (now : ℕ) (cs : List Client) → All (Covered now []) cs → All (Fresh now) cs
unfolding Covered
Covered-Fresh now [] k = tt
Covered-Fresh now (c ∷ cs) k = (
  elim (Bool-cases (leb c.deadline now)) [
    | inl due ↦ ground (arith, k.0 due)
    | inr fresh ↦ ground arith
  ],
  Covered-Fresh now cs k.1,
)

-- After the checks at the end of a round, each client that is left has a deadline later than the time of
-- the check, also one that the machine's own timeout has just added: no client waits past its deadline.
pub check_deadlines-Fresh :
    {F : Type 0} (codec : Codec F) (dials : ℕ → Result ℕ) (clock : ℕ → ℕ) (now later : ℕ)
    (r : Relay)
    → All (Fresh later) (check_deadlines codec dials clock now later r).0.clients
unfolding check_deadlines
check_deadlines-Fresh codec dials clock now later r =
    let r' = (after codec dials clock (timeout now r.hid) r).0 in
    Covered-Fresh later _
      (expire_clients-Covered later r'.clients r' (All-Covered-self later r'.clients))
