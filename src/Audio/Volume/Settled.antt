-- ===== src/Audio/Volume/Settled.antt =====
-- The echo of an own write is no choice of the user (guest/devices/audio_volume.py,
-- `OutputVolume.reconcile`).
use mathlib.Core.Path.{subst}
use ashacky.Base.{ok, ℕ, ◌≡◌, sym, Bool, true, none, some, List, [], ◌∷◌}
use ashacky.Base.Int.{ℤ}
use ashacky.Audio.Volume.{Levels, Floats, Device, Node, Effect, Answers, OutputVolume, written}
use ashacky.Audio.Volume.Reconcile.{reconcile}
use ashacky.Audio.Volume.Echo.{IsWaiting, reconcile_echo}
use ashacky.Audio.Volume.Writing.{reconcile-IsWriting}

module _ {X : Type 0} (q : Floats X) where
  -- A reconciliation with a valid volume of the host that writes to the node and has no reply: the next
  -- reconciliation with the same volume of the host, of a node that shows what was written, does nothing. It
  -- asks the host for nothing and writes nothing, at any time.
  pub reconcile_twice :
      (a b : Answers X) (d : Device X) (node shown : Node X) (now later : ℕ) (v : OutputVolume X)
      (host : X × Bool) (i : ℤ) (wanted : Levels X) (software : List X) (rest : List (Effect X))
      → d.profile ≡ some host
      → q.is_scalar host.0 ≡ true
      → (reconcile q a d node now v).1 ≡ written i wanted software ∷ rest
      → (reconcile q a d node now v).2 ≡ ok none
      → shown.ident ≡ node.ident
      → shown.levels ≡ ok wanted
      → shown.soft ≡ (software, host.1)
      → let again = reconcile q b d shown later (reconcile q a d node now v).0 in
        (again.1 ≡ []) × (again.2 ≡ ok none)
  reconcile_twice a b d node shown now later v host i wanted software rest p c w r n l s =
      let v' = (reconcile q a d node now v).0 in
      let waiting : IsWaiting q d.uid shown.ident host wanted software v' =
        subst (λ k. IsWaiting q d.uid k host wanted software v') (sym n)
          (reconcile-IsWriting q a d node now v host p i wanted software rest w r) in
      reconcile_echo q b d shown later v' host wanted software p c waiting l s
