-- ===== src/Audio/Volume.antt =====
-- The output volume that the host and the desktop share (guest/devices/audio_volume.py, `OutputVolume`).
-- A device and a node are what `reconcile` reads of them; `Floats` has the arithmetic. Times are
-- milliseconds. A write and a request are effects, in their order, and may raise.
use text.Mathlib.Text.{◌==◌ as str_eq}
use ashacky.Base.{
  ltb, if◌then◌else◌, Result, ◌>>=◌, err, ok, ℕ, String, ◌≡◌, Bool, true, false, not, ◌&&◌, Option,
  none, some, List, [], ◌∷◌, ◌++◌,
}
use ashacky.Base.Int.{ℤ}
use ashacky.Audio.Graph.{same_id}
pub mod Reconcile
pub mod Echo
pub mod Writing
pub mod Settled
mod Tests

-- the levels of the channels, and whether they are muted
abbrev pub Levels : Type 0 → Type 0
Levels X = List X × Bool

-- `close` is `abs(x - y) < 0.00001`, `same` is `==`, `over` and `times` are `/` and `*`
pub record Floats (X : Type 0) : Type 0 where
  pub close : X → X → Bool
  pub close_self : (x : X) → close x x ≡ true
  pub same : X → X → Bool
  pub same_self : (x : X) → same x x ≡ true
  pub is_zero : X → Bool
  pub is_scalar : X → Bool
  pub one : X
  pub over : X → X → X
  pub times : X → X → X
  pub cube : X → X
  pub cube_root : X → X
  pub at_most_one : X → X
  pub largest : List X → X

-- a device, with its `outputVolume`
pub record Device (X : Type 0) : Type 0 where
  pub uid : String
  pub profile : Option (X × Bool)

-- a node, with what `level_state` makes of its properties, and its soft volumes
pub record Node (X : Type 0) : Type 0 where
  pub ident : ℤ
  pub levels : Result (Levels X)
  pub soft : Levels X

pub data Effect (X : Type 0) : Type 0 where
  written : ℤ → Levels X → List X → Effect X
  asked : String → X × Bool → X × Bool → Effect X
  scheduled : ℕ → Effect X

-- what the callbacks answer; a reply is its default output
pub record Answers (X : Type 0) : Type 0 where
  pub write : Result (Unit {0})
  pub change : Result (Option (Device X))

-- `pending` is what was before, what is wanted and the deadline
pub record OutputVolume (X : Type 0) : Type 0 where
  pub key : Option (String × ℤ)
  pub host : Option (X × Bool)
  pub observed : Option (Levels X)
  pub pending : Option (Levels X × Levels X × ℕ)
  pub balance : List X

-- the reply that `reconcile` returns, if there is one
abbrev pub Outcome : Type 0 → Type 0
Outcome X = OutputVolume X × List (Effect X) × Result (Option (Option (Device X)))

abbrev pub key_is : String × ℤ → Option (String × ℤ) → Bool
key_is k none = false
key_is k (some l) = str_eq k.0 l.0 && same_id k.1 l.1

abbrev pub same_flag : Bool → Bool → Bool
same_flag true b = b
same_flag false b = not b

module _ {X : Type 0} where
  abbrev pub reset : OutputVolume X
  reset = record { key = none; host = none; observed = none; pending = none; balance = [] }

  abbrev pub after_write :
      OutputVolume X
      → Effect X
      → Result (Unit {0})
      → OutputVolume X × List (Effect X) × Result (Unit {0})
  after_write v w (err e) = (v, w ∷ [], err e)
  after_write v w (ok done) = (reset, w ∷ [], ok tt)

  -- the write of `fallback`, at the levels of the node
  abbrev pub write_back :
      Answers X
      → ℤ
      → Result (Levels X)
      → OutputVolume X
      → OutputVolume X × List (Effect X) × Result (Unit {0})
  write_back a i (err e) v = (v, [], err e)
  write_back a i (ok l) v = after_write v (written i l l.0) a.write

  abbrev pub fallback_of :
      Answers X
      → Option (Node X)
      → Option (String × ℤ)
      → OutputVolume X
      → OutputVolume X × List (Effect X) × Result (Unit {0})
  fallback_of a (some n) (some k) v = write_back a n.ident n.levels v
  fallback_of a _ _ v = (reset, [], ok tt)

  unfoldable pub fallback :
      Answers X
      → Option (Node X)
      → OutputVolume X
      → OutputVolume X × List (Effect X) × Result (Unit {0})
  fallback a node v = fallback_of a node v.key v

  -- `self.fallback(node); return result`
  abbrev pub fall_back :
      Option (Option (Device X)) → OutputVolume X × List (Effect X) × Result (Unit {0}) → Outcome X
  fall_back result (v, fx, r) = (v, fx, r >>= λ done. ok result)

  abbrev pub before : List (Effect X) → Outcome X → Outcome X
  before fx (v, gx, r) = (v, fx ++ gx, r)

module _ {X : Type 0} (q : Floats X) where
  abbrev pub all_close : List X → List X → Bool
  all_close [] [] = true
  all_close (x ∷ xs) (y ∷ ys) = let rest = all_close xs ys in q.close x y && rest
  all_close _ _ = false

  -- `equal` of two levels, neither of them None
  abbrev pub equal : Levels X → Levels X → Bool
  equal a b = same_flag a.1 b.1 && all_close a.0 b.0

  abbrev pub equal_to : Levels X → Option (Levels X) → Bool
  equal_to a none = false
  equal_to a (some b) = equal a b

  abbrev pub host_is : X × Bool → Option (X × Bool) → Bool
  host_is h none = false
  host_is h (some k) = q.same h.0 k.0 && same_flag h.1 k.1

  abbrev pub scale : X → List X → List X
  scale x [] = []
  scale x (b ∷ bs) = q.times x b ∷ scale x bs

  -- the levels as parts of the largest, and all of it where that is none
  abbrev pub parts : X → List X → List X
  parts m [] = []
  parts m (v ∷ vs) = (if q.is_zero m then q.one else q.over v m) ∷ parts m vs

  -- the same, where the old balance stays for a largest of none
  abbrev pub parts_or : X → List X → List X → List X
  parts_or m (v ∷ vs) (b ∷ bs) = (if q.is_zero m then b else q.over v m) ∷ parts_or m vs bs
  parts_or m _ _ = []

  -- `if fresh`
  unfoldable pub enter_key : Bool → String × ℤ → Levels X → OutputVolume X → OutputVolume X
  enter_key fresh key actual v =
      if fresh
      then record reset { key = some key; balance = parts (q.largest actual.0) actual.0 }
      else v

  -- `if pending`: the state, and whether the echo is stale; none for the write that is under way
  abbrev pub settle_pending :
      Levels X
      → X × Bool
      → ℕ
      → Option (Levels X × Levels X × ℕ)
      → OutputVolume X
      → OutputVolume X × Option Bool
  settle_pending actual host now none v = (v, some false)
  settle_pending actual host now (some (old, wanted, deadline)) v =
      if equal actual wanted
      then (record v { pending = none }, some false)
      else (if equal actual old
          then (if host_is host v.host && ltb now deadline
              then (v, none)
              else (record v { pending = none }, some true))
          else (record v { pending = none }, some false))
